-- ===== src/Client/Accounts.antt =====
-- Every request that failed is settled once or waits, and none waits when no refresh is under way.
use egypt_supply_chain_visib.Base.{
  ℕ, ◌+◌, ◌==◌, ◌≡◌, refl, ap, ◌⊎◌, inl, inr, Bool, true, false, not, ◌||◌, Option, none, some,
  List, [], ◌∷◌, if◌then◌else◌, any, arith,
}
use egypt_supply_chain_visib.Client.{
  Settlement, rejected, sent_again, Tab, Failure, settle, settle_all, process_queue, push_back,
  on_failure, on_refresh,
}

abbrev pub one_if : Bool → ℕ
one_if true = 1
one_if false = 0

-- How often a request stands in a list.
abbrev pub times : ℕ → List ℕ → ℕ
times request [] = 0
times request (other ∷ others) = one_if (other == request) + times request others

abbrev pub times_settled : ℕ → List (ℕ × Settlement) → ℕ
times_settled request [] = 0
times_settled request ((other, settlement) ∷ log) =
    one_if (other == request) + times_settled request log

abbrev pub held : ℕ → Option ℕ → ℕ
held request none = 0
held request (some other) = one_if (other == request)

pub record IsAccounted (t : Tab) : Type 0 where
  -- The flag is set exactly while a handler waits, and only then is there a queue.
  pub flagged :
      ((t.is_refreshing ≡ true) × ((request : ℕ) × (t.refreshing ≡ some request)))
      ⊎ ((t.is_refreshing ≡ false) × (t.refreshing ≡ none) × (t.failed_queue ≡ []))
  pub accounted :
      (request : ℕ)
      → times request t.failed
        ≡ times_settled request t.settled
          + (times request t.failed_queue + held request t.refreshing)

-- A response arrives, or the refresh is answered.
pub data Turn (t : Tab) : Tab → Type 0 where
  fails : (f : Failure) → Turn t (on_failure t f)
  answers :
      (request : ℕ) (token : Option ℕ)
      → t.refreshing ≡ some request
      → Turn t (on_refresh t request token)

pub data Turns (t : Tab) : Tab → Type 0 where
  untouched : Turns t t
  then_turn : {middle after : Tab} → Turns t middle → Turn middle after → Turns t after

times-push_back :
    (request : ℕ) (queue : List ℕ) (last : ℕ)
    → times request (push_back queue last) ≡ times request queue + one_if (last == request)
times-push_back request [] last = omega arith
times-push_back request (first ∷ queue) last = omega (arith, times-push_back request queue last)

times_settled-settle_all :
    (request : ℕ) (queue : List ℕ) (settlement : Settlement) (log : List (ℕ × Settlement))
    → times_settled request (settle_all queue settlement log)
      ≡ times_settled request log + times request queue
times_settled-settle_all request [] settlement log = omega arith
times_settled-settle_all request (first ∷ queue) settlement log =
    omega (arith, times_settled-settle_all request queue settlement ((first, settlement) ∷ log))

-- A test whose branches both hold.
either :
    (c : Bool) (a b : Tab)
    → (c ≡ true → IsAccounted a)
    → (c ≡ false → IsAccounted b)
    → IsAccounted (if c then a else b)
either true a b holds otherwise = holds refl
either false a b holds otherwise = otherwise refl

module _ (t : Tab) (sound : IsAccounted t) where
  -- Behind a refresh that is under way.
  queued-IsAccounted :
      (f : Failure)
      → t.is_refreshing ≡ true
      → IsAccounted (record t {
        failed = f.request ∷ t.failed;
        failed_queue = push_back t.failed_queue f.request;
      })
  queued-IsAccounted f busy = record {
    flagged = elim sound.flagged [
      | inl (set, owner) ↦ inl (set, owner)
      | inr (clear, nobody, empty) ↦ absurd (ground arith)
    ];
    accounted = λ request.
        let books = sound.accounted request in
        let longer = times-push_back request t.failed_queue f.request in omega arith;
  }

  -- The first to ask for a refresh.
  started-IsAccounted :
      (f : Failure)
      → t.is_refreshing ≡ false
      → IsAccounted (record t {
        failed = f.request ∷ t.failed;
        is_refreshing = true;
        refreshing = some f.request;
        retried = f.request ∷ t.retried;
      })
  started-IsAccounted f idle = record {
    flagged = inl (refl, (f.request, refl));
    accounted = λ request.
        let books = sound.accounted request in
        let nobody : held request t.refreshing ≡ 0 = ap (held request) idle_owner in omega arith;
  }
    where
      idle_owner : t.refreshing ≡ none
      idle_owner = elim sound.flagged [
        | inl (set, owner) ↦ absurd (ground arith)
        | inr (clear, nobody, empty) ↦ nobody
      ]

  on_failure-IsAccounted : (f : Failure) → IsAccounted (on_failure t f)
  unfolding on_failure
  on_failure-IsAccounted f =
      let settled : (access : Option ℕ)
          → (login : Bool)
          → IsAccounted (
              settle
                (record t {
                  failed = f.request ∷ t.failed;
                  access_token = access;
                  at_login = login;
                })
                f.request rejected) =
        λ access login. record {
          flagged = sound.flagged;
          accounted = λ request. let books = sound.accounted request in omega arith;
        } in
      either (not (f.status == 401) || f.is_login) _ _ (λ other. settled t.access_token t.at_login)
        (λ expired.
          either (any (λ request. request == f.request) t.retried) _ _ (λ again. settled none true)
            (λ first. either t.is_refreshing _ _ (queued-IsAccounted f) (started-IsAccounted f)))

  on_refresh-IsAccounted :
      (request : ℕ) (token : Option ℕ)
      → t.refreshing ≡ some request
      → IsAccounted (on_refresh t request token)
  unfolding on_refresh process_queue
  on_refresh-IsAccounted request none waits = record {
    flagged = inr (refl, refl, refl);
    accounted = λ other.
        let books = sound.accounted other in
        let swept = times_settled-settle_all other t.failed_queue rejected t.settled in
        let owner : held other t.refreshing ≡ one_if (request == other) = ap (held other) waits in
        omega arith;
  }
  on_refresh-IsAccounted request (some token) waits = record {
    flagged = inr (refl, refl, refl);
    accounted = λ other.
        let books = sound.accounted other in
        let swept = times_settled-settle_all other t.failed_queue (sent_again token) t.settled in
        let owner : held other t.refreshing ≡ one_if (request == other) = ap (held other) waits in
        omega arith;
  }

Turn-IsAccounted : {t after : Tab} → IsAccounted t → Turn t after → IsAccounted after
Turn-IsAccounted {t = t} sound (fails f) = on_failure-IsAccounted t sound f
Turn-IsAccounted {t = t} sound (answers request token waits) =
    on_refresh-IsAccounted t sound request token waits

-- However responses fail and refreshes are answered, if that held at first: each request has failed
-- as often as it was settled, waits in the queue or is the one that asked for the refresh, and
-- when no refresh is under way no request waits.
pub Turns-IsAccounted : {t after : Tab} → IsAccounted t → Turns t after → IsAccounted after
Turns-IsAccounted sound untouched = sound
Turns-IsAccounted sound (then_turn turns turn) =
    Turn-IsAccounted (Turns-IsAccounted sound turns) turn
