-- ===== src/Client.antt =====
-- The response interceptor of the client, client/src/api/client.ts: requests that fail with 401 wait
-- for one refresh of the access token.
pub mod Accounts
use egypt_supply_chain_visib.Base.{
  ℕ, ◌==◌, Bool, true, false, not, ◌||◌, Option, none, some, List, [], ◌∷◌, if◌then◌else◌, any,
}

-- What becomes of a request that failed: its caller gets the error, or it is sent again.
pub data Settlement : Type 0 where
  rejected : Settlement
  sent_again : ℕ → Settlement

-- `refreshing` is the request whose handler waits for the refresh, if `isRefreshing`; `retried` the
-- requests marked `_retry`; `failed` and `settled` log what came and what became of it, the newest
-- first.
pub record Tab : Type 0 where
  pub access_token : Option ℕ
  pub is_refreshing : Bool
  pub refreshing : Option ℕ
  pub failed_queue : List ℕ
  pub retried : List ℕ
  pub at_login : Bool
  pub failed : List ℕ
  pub settled : List (ℕ × Settlement)

-- A response that is an error: its request, the status, and whether the request is a login. One
-- that axios gives without its request is rejected as another status is.
pub record Failure : Type 0 where
  pub request : ℕ
  pub status : ℕ
  pub is_login : Bool

abbrev pub settle : Tab → ℕ → Settlement → Tab
settle t request settlement = record t { settled = (request, settlement) ∷ t.settled }

-- `forEach` of processQueue.
abbrev pub settle_all : List ℕ → Settlement → List (ℕ × Settlement) → List (ℕ × Settlement)
settle_all [] settlement log = log
settle_all (request ∷ requests) settlement log =
    settle_all requests settlement ((request, settlement) ∷ log)

-- The queue is emptied once its requests are settled.
unfoldable pub process_queue : Tab → Settlement → Tab
process_queue t settlement = record t {
  settled = settle_all t.failed_queue settlement t.settled;
  failed_queue = [];
}

-- `clearAuth` and the way to the login page.
abbrev pub leave : Tab → Tab
leave t = record t { access_token = none; at_login = true }

abbrev pub push_back : List ℕ → ℕ → List ℕ
push_back [] request = request ∷ []
push_back (first ∷ queue) request = first ∷ push_back queue request

-- The interceptor up to where it waits.
unfoldable pub on_failure : Tab → Failure → Tab
on_failure t f =
    let seen : Tab = record t { failed = f.request ∷ t.failed } in
    if not (f.status == 401) || f.is_login
    then settle seen f.request rejected
    else if any (λ request. request == f.request) t.retried
    then settle (leave seen) f.request rejected
    else if t.is_refreshing
    then record seen { failed_queue = push_back t.failed_queue f.request }
    else record seen {
      is_refreshing = true;
      refreshing = some f.request;
      retried = f.request ∷ t.retried;
    }

-- The interceptor from there on, for the request that asked for the refresh; the answer is the new
-- token, or none. The queue is settled before the request itself.
unfoldable pub on_refresh : Tab → ℕ → Option ℕ → Tab
unfolding process_queue
on_refresh t request none =
    let done : Tab = settle (leave (process_queue t rejected)) request rejected in
    record done { is_refreshing = false; refreshing = none }
on_refresh t request (some token) =
    let done : Tab =
      settle (process_queue (record t { access_token = some token }) (sent_again token)) request
        (sent_again token) in
    record done { is_refreshing = false; refreshing = none }
