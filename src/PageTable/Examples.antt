-- ===== src/PageTable/Examples.antt =====
-- The theorem at one input, and a test of the page table.
use sampled_mgpu_sim.Prelude.{◌≡◌, true, false, none, List, [], ◌∷◌, arith}
use sampled_mgpu_sim.PageTable.{Page, new_page_table}
use sampled_mgpu_sim.PageTable.Spec.{
  Command, insert_call, remove_call, update_call, find_call, step, spec_step,
}
use sampled_mgpu_sim.PageTable.Refine.{run_calls, viewed, run-refines_map}

abbrev page : Page
page = record {
  pid = 1;
  p_addr = 0x20000;
  v_addr = 0x1000;
  page_size = 4096;
  valid = true;
  device_id = 2;
  unified = false;
  is_migrating = false;
  is_pinned = false;
}

-- Insert a page, look up an address in it, rewrite it, remove it, and look the address up again.
abbrev calls : List Command
calls =
    insert_call page
    ∷ find_call 1 0x1abc
    ∷ update_call (record page { device_id = 3 })
    ∷ remove_call 1 0x1000
    ∷ find_call 1 0x1abc
    ∷ []

run-refines_map_example :
    viewed (run_calls step (new_page_table 12) calls)
    ≡ run_calls (spec_step 12) (λ pid v. none) calls
run-refines_map_example =
    run-refines_map 12 calls (tt, (omega arith, (tt, (tt, (omega arith, tt)))))
