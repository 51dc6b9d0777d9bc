-- ===== src/Pubsub/Health/Exists.antt =====
-- What a healthy answer means.
use mathlib.Core.Path.{subst}
use event_driven.Prelude.{
  ◌≡◌, ◌↔◌, arith, refl, sym, ◌∙◌, ◌++◌, Bytes, str, is_empty, Bool, true, false, not, ◌&&◌, ◌||◌,
  Option, none, some, is_some, List, [], ◌∷◌, if◌then◌else◌,
}
use event_driven.Error.{Err, join}
use event_driven.Pubsub.Health.{
  Admin, HealthChecker, path, check, add_error, check_error, check_all,
}

-- Every id that is not empty is that of a resource for which the admin call gives no error.
abbrev pub all_exist : (Bytes → Option Err) → List Bytes → Bool
all_exist get [] = true
all_exist get (id ∷ ids) = (is_empty id || not (is_some (get id))) && all_exist get ids

abbrev pub no_errors : List Err → Bool
no_errors [] = true
no_errors (e ∷ es) = false

no_errors-append : (xs ys : List Err) → no_errors (xs ++ ys) ≡ (no_errors xs && no_errors ys)
no_errors-append [] ys = refl
no_errors-append (x ∷ xs) ys = refl

check_error-join : (xs : List Err) → (check_error (join xs) ≡ none) ↔ (no_errors xs ≡ true)
unfolding join
check_error-join [] = ground arith
check_error-join (x ∷ xs) = ground arith

module _ {S : Type 0} (is_not_found : Err → Bool) (c : HealthChecker) where
  turn :
      (b : Bool) (kind id : Bytes) (o : Option Err) (skipped rest : List Err × S) (x : Bool)
      → no_errors skipped.0 ≡ x
      → no_errors rest.0 ≡ x
      → no_errors (if b then skipped else (add_error is_not_found kind id o rest.0, rest.1)).0
        ≡ ((b || not (is_some o)) && x)
  turn true kind id o skipped rest x h k = h
  turn false kind id none skipped rest x h k = k
  turn false kind id (some e) skipped rest x h k = refl

  no_errors-check :
      (kind : Bytes) (ids : List Bytes) (get : Bytes → S → Option Err × S)
      (exists : Bytes → Option Err)
      → ((name : Bytes) (s : S) → (get name s).0 ≡ exists name)
      → (s : S)
      → no_errors (check is_not_found c kind ids get s).0
        ≡ all_exist (λ id. exists (path c kind id)) ids
  unfolding check
  no_errors-check kind [] get exists h s = refl
  no_errors-check kind (id ∷ ids) get exists h s =
      let answer = get (path c kind id) s in
      rw (sym (h (path c kind id) s)) (
        turn (is_empty id) kind id answer.0 (check is_not_found c kind ids get s)
          (check is_not_found c kind ids get answer.1) _ (no_errors-check kind ids get exists h s)
          (no_errors-check kind ids get exists h answer.1))

module _ {S : Type 0} (admin : Admin S) where
  -- If the existence of a resource does not change during a check, Check is healthy exactly if every
  -- registered topic and every registered subscription whose id is not empty exists; ids that are empty
  -- are not asked for.
  pub check_all-eq-none_iff :
      (c : HealthChecker) (topic subscription : Bytes → Option Err)
      → ((name : Bytes) (s : S) → (admin.get_topic name s).0 ≡ topic name)
      → ((name : Bytes) (s : S) → (admin.get_subscription name s).0 ≡ subscription name)
      → (s : S)
      → ((check_all admin c s).0 ≡ none) ↔ (
          (all_exist (λ id. topic (path c (str "topic") id)) c.topics
            && all_exist (λ id. subscription (path c (str "subscription") id)) c.subscriptions)
          ≡ true)
  unfolding check_all
  check_all-eq-none_iff c topic subscription ht hs s =
      let topics = check admin.is_not_found c (str "topic") c.topics admin.get_topic s in
      let subscriptions =
        check admin.is_not_found c (str "subscription") c.subscriptions admin.get_subscription
          topics.1 in
      let topics_exist =
        no_errors-check admin.is_not_found c (str "topic") c.topics admin.get_topic topic ht s in
      let subscriptions_exist =
        no_errors-check admin.is_not_found c (str "subscription") c.subscriptions
          admin.get_subscription subscription hs topics.1 in
      let checked =
        no_errors-append topics.0 subscriptions.0
        ∙ (λ i. topics_exist i && subscriptions_exist i) in
      subst (λ b. (check_error (join (topics.0 ++ subscriptions.0)) ≡ none) ↔ (b ≡ true)) checked
        (check_error-join (topics.0 ++ subscriptions.0))
