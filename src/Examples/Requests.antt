-- ===== src/Examples/Requests.antt =====
-- The theorem on requests that wait for a refresh, applied to two that fail together.
use egypt_supply_chain_visib.Base.{ℕ, ◌≡◌, ◌∷◌, refl, inr, false, none, some, []}
use egypt_supply_chain_visib.Client.{
  Tab, Failure, sent_again, process_queue, on_failure, on_refresh,
}
use egypt_supply_chain_visib.Client.Accounts.{
  IsAccounted, fails, answers, Turns, untouched, then_turn, Turns-IsAccounted,
}

abbrev opened : Tab
opened = record {
  access_token = some 1;
  is_refreshing = false;
  refreshing = none;
  failed_queue = [];
  retried = [];
  at_login = false;
  failed = [];
  settled = [];
}

abbrev unauthorized_one : ℕ → Failure
unauthorized_one n = record { request = n; status = 401; is_login = false }

abbrev waiting : Tab
waiting = on_failure (on_failure opened (unauthorized_one 1)) (unauthorized_one 2)

opened-IsAccounted : IsAccounted opened
opened-IsAccounted = record { flagged = inr (refl, refl, refl); accounted = λ request. refl }

to_answered : Turns opened (on_refresh waiting 1 (some 9))
unfolding on_failure
to_answered =
    then_turn
      (then_turn (then_turn untouched (fails (unauthorized_one 1))) (fails (unauthorized_one 2)))
      (answers 1 (some 9) refl)

Turns-IsAccounted_example : IsAccounted (on_refresh waiting 1 (some 9))
Turns-IsAccounted_example = Turns-IsAccounted opened-IsAccounted to_answered

answered_queue :
    (on_refresh waiting 1 (some 9)).settled ≡ (1, sent_again 9) ∷ (2, sent_again 9) ∷ []
unfolding on_failure on_refresh process_queue
answered_queue = refl
