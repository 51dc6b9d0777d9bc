-- ===== src/Tests/Codec.antt =====
-- A codec of events of the concrete type with at most one extension, in place of JSON.
use mathlib.Core.Path.{subst}
use event_driven.Prelude.{◌∙◌, ℕ, zero, suc, ◌≡◌, refl, ap, Bytes, List, [], ◌∷◌}
use event_driven.Error.{Result, ok, err}
use event_driven.Tests.Sdk.{TestEvent}
use event_driven.Tests.Router.{boom}

-- A text with its end marked, before the rest.
abbrev pub put : Bytes → Bytes → Bytes
put [] rest = 0 ∷ rest
put (c ∷ s) rest = 1 ∷ c ∷ put s rest

abbrev pub push : ℕ → List Bytes → List Bytes
push c [] = []
push c (f ∷ fs) = (c ∷ f) ∷ fs

abbrev pub fields : Bytes → List Bytes
fields [] = []
fields (zero ∷ s) = [] ∷ fields s
fields (suc n ∷ []) = []
fields (suc n ∷ c ∷ s) = push c (fields s)

pub fields-put : (s rest : Bytes) → fields (put s rest) ≡ s ∷ fields rest
fields-put [] rest = refl
fields-put (c ∷ s) rest = ap (push c) (fields-put s rest)

abbrev print_extensions : List (Bytes × Bytes) → Result Bytes
print_extensions [] = ok []
print_extensions ((k, v) ∷ []) = ok (put k (put v []))
print_extensions (x ∷ y ∷ exts) = err boom

abbrev print_rest : TestEvent → Result Bytes → Result Bytes
print_rest e (err f) = err f
print_rest e (ok exts) = ok (put e.id (put e.type (put e.source (put e.content exts))))

abbrev pub print : TestEvent → Result Bytes
print e = print_rest e (print_extensions e.extensions)

abbrev build_extensions : List Bytes → List (Bytes × Bytes)
build_extensions (k ∷ v ∷ fs) = (k, v) ∷ []
build_extensions (k ∷ []) = []
build_extensions [] = []

abbrev build : List Bytes → Result TestEvent
build (id ∷ type ∷ source ∷ content ∷ exts) = ok (record {
  id = id;
  type = type;
  source = source;
  content = content;
  extensions = build_extensions exts;
})
build _ = err boom

abbrev pub parse : Bytes → Result TestEvent
parse body = build (fields body)

fields-event :
    (a b c d rest : Bytes)
    → fields (put a (put b (put c (put d rest)))) ≡ a ∷ b ∷ c ∷ d ∷ fields rest
fields-event a b c d rest =
    rw
      (
        fields-put a (put b (put c (put d rest))),
        fields-put b (put c (put d rest)),
        fields-put c (put d rest),
        fields-put d rest,
      )
      refl

extensions-print :
    (exts : List (Bytes × Bytes)) (s : Bytes)
    → print_extensions exts ≡ ok s
    → build_extensions (fields s) ≡ exts
extensions-print [] s p =
    let same : [] ≡ s = cc in subst (λ x. build_extensions (fields x) ≡ []) same refl
extensions-print ((k, v) ∷ []) s p =
    let same : put k (put v []) ≡ s = cc in
    subst (λ x. build_extensions (fields x) ≡ (k, v) ∷ []) same
      (rw (fields-put k (put v []), fields-put v []) refl)
extensions-print (x ∷ y ∷ exts) s p = cc

print_rest-parse :
    (e : TestEvent) (x : Result Bytes) (body : Bytes)
    → print_extensions e.extensions ≡ x
    → print_rest e x ≡ ok body
    → parse body ≡ ok e
print_rest-parse e (err f) body p q = cc
print_rest-parse e (ok s) body p q =
    let text : Bytes = put e.id (put e.type (put e.source (put e.content s))) in
    let same : text ≡ body = cc in
    subst (λ x. parse x ≡ ok e) same
      (ap build (fields-event e.id e.type e.source e.content s)
        ∙ ap (λ exts. ok (record e { extensions = exts })) (extensions-print e.extensions s p))

pub print-parse : (e : TestEvent) (body : Bytes) → print e ≡ ok body → parse body ≡ ok e
print-parse e body q = print_rest-parse e (print_extensions e.extensions) body refl q
