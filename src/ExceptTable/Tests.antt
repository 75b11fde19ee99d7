-- ===== src/ExceptTable/Tests.antt =====
-- Small tables of .gcc_except_table.
use kanana.Base.{
  ℕ, ◌+◌, ◌-◌, ◌%◌, ◌≤◌, ◌≡◌, ◌≢◌, refl, arith, some, List, [], ◌∷◌, ◌++◌, map, length, true, false,
}
use kanana.EhPe.{format, application}
use kanana.EhPe.Numbers.{lsb}
use kanana.Util.GrowingBuffer.{GrowingBuffer, zeroed}
use kanana.ExceptTable.{
  ActionRecord, CallSiteRecord, Written, TtBase, write_actions, write_call_sites, tt_base,
}
use kanana.ExceptTable.Read.{read_call_sites}
use kanana.ExceptTable.Fields.{as_read}
use kanana.ExceptTable.CallSites.{read_call_sites-write}
use kanana.ExceptTable.Returns.{write_actions-returns}
use kanana.ExceptTable.Fits.{Reads, tt_base-Reads}
use kanana.Base.Outcome.{out_of_fuel}
use kanana.ExceptTable.Actions.{read_action_table}
use kanana.ExceptTable.Actions.Ends.{read_action_table-ends}

abbrev link : ℕ → ℕ → ActionRecord
link type next = record { type_filter_index = type; next_action = next; has_next_action = true }

-- The first goes on to the third, that to the second and that back to the third.
abbrev circle : List ActionRecord
circle = link 0 2 ∷ link 1 2 ∷ link 2 1 ∷ []

write_actions-returns_example :
    (w : Written) × (write_actions circle ≡ some w) × (length w.offsets ≡ length circle)
write_actions-returns_example =
    write_actions-returns circle
      ((λ _. omega arith), ((λ _. omega arith), ((λ _. omega arith), tt)))

-- A number of 126 and the three bytes that the table is moved take a second byte.
tt_base-Reads_example :
    (base : TtBase) × (tt_base 3 126 8 ≡ some base)
    × Reads base.offset_bytes (126 + base.moved)
    × (base.moved ≤ 3)
    × ((3 + length base.offset_bytes + (126 - 8) + base.moved) % 4 ≡ 0)
tt_base-Reads_example = tt_base-Reads 3 126 8 (omega arith)

abbrev site : CallSiteRecord
site = record {
  position = 0;
  call_length = 8;
  landing_pad_position = 16;
  first_action = 0;
  has_action = true;
}

-- An action that is its own next.
read_action_table-ends_example : read_action_table (1 ∷ 0x7f ∷ []) (site ∷ []) ≢ out_of_fuel
read_action_table-ends_example = read_action_table-ends (1 ∷ 0x7f ∷ []) (site ∷ [])

abbrev site_without : CallSiteRecord
site_without = record site { position = 300; has_action = false }

-- DW_EH_PE_uleb128
read_call_sites-write_example :
    (buf' : GrowingBuffer) × (written : List ℕ) × (write_call_sites
        (0 ∷ 2 ∷ [])
        (record site { first_action = 1 } ∷ site_without ∷ [])
        zeroed
      ≡ some buf')
    × (buf'.bytes ≡ zeroed.bytes ++ written)
    × (read_call_sites lsb 64 0x5000 1 (length written) (written ++ 7 ∷ []) 4 (length written)
        ≡ some (
          map (as_read (0 ∷ 2 ∷ [])) (record site { first_action = 1 } ∷ site_without ∷ []),
          length written,
        ))
unfolding format application
read_call_sites-write_example =
    read_call_sites-write lsb 64 0x5000 1 refl refl (0 ∷ 2 ∷ [])
      (record site { first_action = 1 } ∷ site_without ∷ []) zeroed (7 ∷ []) 4
      (
        (omega arith, omega arith, omega arith, omega arith, λ _. omega arith),
        ((omega arith, omega arith, omega arith, omega arith, λ e. absurd cc), tt),
      )
      (omega arith) (omega arith, tt)
