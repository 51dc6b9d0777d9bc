-- ===== src/Identity/Lookups.antt =====
-- How often STS is asked.
use event_driven.Prelude.{
  ◌≡◌, refl, ap, ◌∙◌, false, Bytes, is_empty, Option, none, some, not, ◌&&◌, if_true, if_both, List,
  [], ◌∷◌,
}
use event_driven.Error.{Err, Result, ok, err}
use event_driven.Identity.{
  Identity, Sts, has_config, resolve, store_caller, or_error, account_id, arn, partition,
  partition_of,
}

-- A question to an Identity.
pub data Question : Type 0 where
  asks_account asks_arn asks_partition : Question

module _ {S : Type 0} (sts : Sts S) where
  abbrev pub ask : Question → Identity S → Result Bytes × Identity S
  ask asks_account i = account_id sts i
  ask asks_arn i = arn sts i
  ask asks_partition i = partition sts i

  abbrev pub ask_all : List Question → Identity S → Identity S
  ask_all [] i = i
  ask_all (q ∷ qs) i = ask_all qs (ask q i).1

  or_error-state :
      (f : Identity S → Result Bytes) (x : Option Err × Identity S) → (or_error sts f x).1 ≡ x.1
  or_error-state f (none, i) = refl
  or_error-state f (some e, i) = refl

  partition_of-state : (x : Result Bytes × Identity S) → (partition_of sts x).1 ≡ x.1
  partition_of-state (ok a, i) = refl
  partition_of-state (err e, i) = refl

  resolve-known : (i : Identity S) → is_empty i.arn ≡ false → (resolve sts i).1 ≡ i
  unfolding resolve
  resolve-known i h =
      if_both (λ (x : Option Err × Identity S). x.1 ≡ i)
        (not (has_config i.region) && not i.has_client) _ _ refl
        (if_true (λ (x : Option Err × Identity S). x.1 ≡ i) (not (is_empty i.arn)) (none, i)
          (store_caller sts i (sts i.outside)) (ap not h) refl)

  ask-known : (q : Question) (i : Identity S) → is_empty i.arn ≡ false → (ask q i).1 ≡ i
  unfolding account_id arn partition
  ask-known asks_account i h =
      or_error-state (λ j. ok j.account_id) (resolve sts i) ∙ resolve-known i h
  ask-known asks_arn i h = or_error-state (λ j. ok j.arn) (resolve sts i) ∙ resolve-known i h
  ask-known asks_partition i h =
      partition_of-state (or_error sts (λ j. ok j.arn) (resolve sts i))
      ∙ or_error-state (λ j. ok j.arn) (resolve sts i)
      ∙ resolve-known i h

  -- Once the caller is known, no question changes what is cached, and none asks STS again: the state
  -- of the outside world stays what it was.
  pub ask_all-known :
      (qs : List Question) (i : Identity S) → is_empty i.arn ≡ false → ask_all qs i ≡ i
  ask_all-known [] i h = refl
  ask_all-known (q ∷ qs) i h = ap (ask_all qs) (ask-known q i h) ∙ ask_all-known qs i h
