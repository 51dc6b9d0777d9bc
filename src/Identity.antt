-- ===== src/Identity.antt =====
-- pkg/transport/aws/identity.go: the caller's account, ARN, partition and region. STS is a parameter;
-- the lock makes a lookup one step, and its context is part of the state of the outside world.
pub mod Lookups
use event_driven.Prelude.{
  quoted, ◌++◌, ℕ, ◌==◌, if◌then◌else◌, Bytes, str, is_empty, bytes_eq, Bool, true, false, not,
  ◌&&◌, ◌||◌, Option, none, some, List, [], ◌∷◌,
}
use event_driven.Error.{Err, Result, ok, err, errorf, lit, done, wrap}

-- GetCallerIdentity: the account and the ARN; nil strings are empty.
abbrev pub Sts : Type 0 → Type 0
Sts S = S → Result (Bytes × Bytes) × S

-- `region` is that of Config, if there is one; `has_client` whether Client overrides it.
pub record Identity (S : Type 0) : Type 0 where
  pub region : Option Bytes
  pub has_client : Bool
  pub account_id : Bytes
  pub arn : Bytes
  pub outside : S

abbrev pub refuse : {A : Type 0} → Bytes → Result A
refuse text = err (errorf (lit text done))

abbrev pub has_config : Option Bytes → Bool
has_config none = false
has_config (some region) = true

abbrev pub named_region : Bytes → Result Bytes
named_region region =
    if is_empty region
    then refuse (str "aws: config has no region (set AWS_REGION or pass it via config option)")
    else ok region

abbrev pub region_of : Option Bytes → Result Bytes
region_of none = refuse (str "aws: Identity requires Config")
region_of (some region) = named_region region

-- The text before the first colon, and after it.
abbrev pub cut_colon : Bytes → Option (Bytes × Bytes)
cut_colon [] = none
cut_colon (c ∷ s) = let rest = cut_colon s in if c == 0x3A then some ([], s) else longer c rest
  where
    longer : ℕ → Option (Bytes × Bytes) → Option (Bytes × Bytes)
    longer c none = none
    longer c (some (before, after)) = some (c ∷ before, after)

abbrev pub unexpected_arn : Bytes → Result Bytes
unexpected_arn arn = refuse (str "aws: unexpected caller ARN " ++ quoted arn)

abbrev pub second_part : Bytes → Bytes → Option (Bytes × Bytes) → Result Bytes
second_part arn first none = unexpected_arn arn
second_part arn first (some (second, third)) =
    if not (bytes_eq first (str "arn")) || is_empty second then unexpected_arn arn else ok second

-- strings.SplitN(arn, ":", 3): the second of three parts.
abbrev pub partition_in : Bytes → Option (Bytes × Bytes) → Result Bytes
partition_in arn none = unexpected_arn arn
partition_in arn (some (first, rest)) = second_part arn first (cut_colon rest)

module _ {S : Type 0} (sts : Sts S) where
  abbrev pub store_caller : Identity S → Result (Bytes × Bytes) × S → Option Err × Identity S
  store_caller i (err e, s) =
      (some (wrap (str "aws: GetCallerIdentity: ") e), record i { outside = s })
  store_caller i (ok (account, arn), s) =
      (none, record i { account_id = account; arn = arn; outside = s })

  unfoldable pub resolve : Identity S → Option Err × Identity S
  resolve i =
      if not (has_config i.region) && not i.has_client
      then (some (errorf (lit (str "aws: Identity requires Config") done)), i)
      else if not (is_empty i.arn)
      then (none, i)
      else store_caller i (sts i.outside)

  abbrev pub or_error :
      (Identity S → Result Bytes) → Option Err × Identity S → Result Bytes × Identity S
  or_error value (some e, i) = (err e, i)
  or_error value (none, i) = (value i, i)

  unfoldable pub account_id : Identity S → Result Bytes × Identity S
  unfolding resolve
  account_id i = or_error (λ j. ok j.account_id) (resolve i)

  unfoldable pub arn : Identity S → Result Bytes × Identity S
  unfolding resolve
  arn i = or_error (λ j. ok j.arn) (resolve i)

  abbrev pub partition_of : Result Bytes × Identity S → Result Bytes × Identity S
  partition_of (err e, i) = (err e, i)
  partition_of (ok caller, i) = (partition_in caller (cut_colon caller), i)

  unfoldable pub partition : Identity S → Result Bytes × Identity S
  unfolding arn
  partition i = partition_of (arn i)

module _ {S : Type 0} where
  unfoldable pub region : Identity S → Result Bytes
  region i = region_of i.region
