-- ===== src/Http/Token/Fresh.antt =====
-- Every token that is handed out is fresh.
use event_driven.Prelude.{
  [], ℕ, ◌+◌, ◌<◌, ◌≡◌, refl, ap, sym, arith, ltb, Bytes, is_empty, true, false, not, ◌&&◌,
  Bool-cases, inl, inr, ◌⊎◌, if_both, if_true, if_false,
}
use event_driven.Error.{Result, ok, err}
use event_driven.Http.Token.{TokenConfig, Provider, Remote, fetch, keep, refresh, token}

module _ {S : Type 0} (remote : Remote S) (cfg : TokenConfig) where
  -- The response to a fetch, read at a later moment, carried this token with this lifetime.
  pub record IsFetched (b : Bytes) (ttl at : ℕ) : Type 0 where
    pub before : S
    pub answer : (fetch remote cfg before).0 ≡ ok (b, ttl)
    pub moment : at ≡ remote.now (fetch remote cfg before).1

  -- A cached token comes from a fetch, whose lifetime it has from then on.
  pub record IsBacked (tp : Provider S) : Type 0 where
    pub ttl : ℕ
    pub at : ℕ
    pub fetched : IsFetched tp.cached ttl at
    pub expiry : tp.expires_at ≡ at + ttl

  abbrev pub IsSound : Provider S → Type 0
  IsSound tp = (tp.cached ≡ []) ⊎ IsBacked tp

  -- What a call of Token answers, and leaves behind.
  pub record IsServed (tp : Provider S) (x : Result Bytes × Provider S) : Type 0 where
    pub sound : IsSound x.1
    pub fresh :
        (b : Bytes)
        → x.0 ≡ ok b
        → (ttl : ℕ) × (at : ℕ) × IsFetched b ttl at
          × ((at ≡ remote.now x.1.outside) ⊎ (remote.now tp.outside < at + ttl))

  -- Another state of the outside world.
  moved : (tp : Provider S) (s : S) → IsSound tp → IsSound (record tp { outside = s })
  moved tp s (inl h) = inl h
  moved tp s (inr h) =
      inr (record { ttl = h.ttl; at = h.at; fetched = h.fetched; expiry = h.expiry })

  keep-IsSound :
      (b : Bytes) (ttl : ℕ) (tp : Provider S)
      → IsSound tp
      → IsFetched b ttl (remote.now tp.outside)
      → IsSound (keep remote cfg b ttl (remote.now tp.outside) tp)
  keep-IsSound b ttl tp h f =
      if_both IsSound (ltb 0 ttl)
        (record tp { cached = b; expires_at = remote.now tp.outside + ttl }) tp
        (inr (record { ttl = ttl; at = remote.now tp.outside; fetched = f; expiry = refl })) h

  keep-outside :
      (b : Bytes) (ttl now : ℕ) (tp : Provider S)
      → (keep remote cfg b ttl now tp).outside ≡ tp.outside
  keep-outside b ttl now tp =
      if_both (λ (v : Provider S). v.outside ≡ tp.outside) (ltb 0 ttl)
        (record tp { cached = b; expires_at = now + ttl }) tp refl refl

  refresh-IsServed :
      (tp : Provider S) (x : Result (Bytes × ℕ) × S)
      → IsSound tp
      → fetch remote cfg tp.outside ≡ x
      → IsServed tp (refresh remote cfg tp x)
  refresh-IsServed tp (err e, s) h k = record { sound = moved tp s h; fresh = λ b q. cc }
  refresh-IsServed tp (ok (b, ttl), s) h k =
      let f : IsFetched b ttl (remote.now s) = record {
        before = tp.outside;
        answer = ap (λ (y : Result (Bytes × ℕ) × S). y.0) k;
        moment = ap (λ (y : Result (Bytes × ℕ) × S). remote.now y.1) (sym k);
      } in
      record {
        sound = keep-IsSound b ttl (record tp { outside = s }) (moved tp s h) f;
        fresh = λ b' q.
            let same : b ≡ b' = cc in
            (
              ttl,
              remote.now s,
              rw⁻¹ same f,
              inl (rw (keep-outside b ttl (remote.now s) (record tp { outside = s })) refl),
            );
      }

  cached-IsServed :
      (tp : Provider S)
      → IsSound tp
      → is_empty tp.cached ≡ false
      → ltb (remote.now tp.outside) tp.expires_at ≡ true
      → IsServed tp (ok tp.cached, tp)
  cached-IsServed tp (inl h) e l = cc
  cached-IsServed tp (inr h) e l = record {
    sound = inr h;
    fresh = λ b q.
        let same : tp.cached ≡ b = cc in
        (h.ttl, h.at, rw⁻¹ same h.fetched, inr (ground (arith, h.expiry)));
  }

  -- A token that Token hands out was either fetched by this very call, or by an earlier one whose
  -- lifetime has not ended at the time of the call; and what it leaves cached is again of this kind.
  pub token-IsServed : (tp : Provider S) → IsSound tp → IsServed tp (token remote cfg tp)
  unfolding token
  token-IsServed tp h =
      elim (Bool-cases (not (is_empty tp.cached) && ltb (remote.now tp.outside) tp.expires_at)) [
        | inl valid ↦
            if_true (IsServed tp)
              (not (is_empty tp.cached) && ltb (remote.now tp.outside) tp.expires_at)
              (ok tp.cached, tp) (refresh remote cfg tp (fetch remote cfg tp.outside)) valid
              (cached-IsServed tp h (ground arith) (ground arith))
        | inr stale ↦
            if_false (IsServed tp)
              (not (is_empty tp.cached) && ltb (remote.now tp.outside) tp.expires_at)
              (ok tp.cached, tp) (refresh remote cfg tp (fetch remote cfg tp.outside)) stale
              (refresh-IsServed tp (fetch remote cfg tp.outside) h refl)
      ]
