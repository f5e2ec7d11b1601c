-- ===== src/Store/Indexed.antt =====
-- A table in memory, rows under the numbers below a bound: it shows that the behaviour asked of a
-- table can be met, and it runs the examples.
use egypt_supply_chain_visib.Store.{Table, amend, discard}
use egypt_supply_chain_visib.Store.Slots.{
  Slots, find_slot, save_slot, delete_slot, count_slots, find-save_slot, find-delete_slot,
  count_slots_pos, count_slots_find, count_slots-delete,
}
use egypt_supply_chain_visib.Store.Slots.Search.{
  first_slot, first_slot-eq-some, first_slot-eq-none, find_slot-amend, find_slot-discard, list_slot,
  list_slot-Mem,
}

abbrev pub indexed : (R : Type 0) → Table R
indexed R = record {
  Rows = Slots R;
  find = find_slot;
  save = save_slot;
  delete = delete_slot;
  count = count_slots;
  find-save = find-save_slot;
  find-delete = find-delete_slot;
  count_pos = count_slots_pos;
  count_find = count_slots_find;
  count-delete = count_slots-delete;
  list = list_slot;
  list-Mem = list_slot-Mem;
  first = first_slot;
  update_where = λ t p f. (t.0, λ j. amend p f (t.1 j));
  delete_where = λ t p. (t.0, λ j. discard p (t.1 j));
  first-eq-some = first_slot-eq-some;
  first-eq-none = first_slot-eq-none;
  find-update_where = find_slot-amend;
  find-delete_where = find_slot-discard;
}
