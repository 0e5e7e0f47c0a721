-- ===== src/RequestContext/KeepAlive.antt =====
-- Which requests `context_keep_alive` answers with 1.
use jullop.Base.{
  ℕ, zero, suc, ◌≡◌, ◌≢◌, ◌⊎◌, inl, inr, refl, arith, Bool, true, false, List, [], ◌∷◌, length,
  take, ◌!=◌, ap, ◌∙◌,
}
use jullop.HttpRequest.{Header}
use jullop.RequestContext.{
  connection, keep_alive, strncmp_differs, keep_alive_from, RequestContext, context_keep_alive,
}

-- A header `Connection: Keep-Alive`, in just these letters, stands in the list.
pub data AsksKeepAlive : List Header → Type 0 where
  here :
      {h : Header} {hs : List Header}
      → h.name ≡ connection
      → h.value ≡ keep_alive
      → AsksKeepAlive (h ∷ hs)
  there : {h : Header} {hs : List Header} → AsksKeepAlive hs → AsksKeepAlive (h ∷ hs)

abbrev NoNul : List ℕ → Type 0
NoNul [] = Unit {0}
NoNul (x ∷ xs) = (x ≢ 0) × NoNul xs

strncmp_differs-same :
    (a b : List ℕ) (n : ℕ)
    → length a ≡ n
    → length b ≡ n
    → NoNul b
    → strncmp_differs a b n ≡ false
    → a ≡ b
unfolding strncmp_differs
strncmp_differs-same [] [] n ha hb nn e = refl
strncmp_differs-same [] (y ∷ b) n ha hb nn e = absurd (omega arith)
strncmp_differs-same (x ∷ a) [] n ha hb nn e = absurd (omega arith)
strncmp_differs-same (x ∷ a) (y ∷ b) zero ha hb nn e = absurd (omega arith)
strncmp_differs-same (x ∷ a) (y ∷ b) (suc n) ha hb nn e =
    ground (arith, strncmp_differs-same a b n, nn.0)

strncmp_differs_refl : (a : List ℕ) (n : ℕ) → strncmp_differs a a n ≡ false
unfolding strncmp_differs
strncmp_differs_refl a zero = refl
strncmp_differs_refl [] (suc n) = refl
strncmp_differs_refl (x ∷ a) (suc n) = ground (arith, strncmp_differs_refl a n)

-- A header is passed over, or it is the header looked for and the loop returns 1.
abbrev Verdict : Header → List Header → Type 0
Verdict h hs =
    (h.name ≡ connection) × (h.value ≡ keep_alive) × (keep_alive_from (h ∷ hs) ≡ 1)
    ⊎ ((h.name ≡ connection → h.value ≢ keep_alive)
        × (keep_alive_from (h ∷ hs) ≡ keep_alive_from hs))

connection-NoNul : NoNul connection
connection-NoNul = ground arith

keep_alive-NoNul : NoNul keep_alive
keep_alive-NoNul = ground arith

by_tests :
    (h : Header) (hs : List Header) (b c d e : Bool)
    → (length h.name != 10) ≡ b
    → strncmp_differs h.name connection 10 ≡ c
    → (length h.value != 10) ≡ d
    → strncmp_differs h.value keep_alive 10 ≡ e
    → Verdict h hs
unfolding keep_alive_from
by_tests h hs true c d e p q r s =
    inr (λ same. let n : length h.name ≡ 10 = ap length same in ground arith, rw p refl)
by_tests h hs false true d e p q r s = inr (
  λ same.
      let n = ap (λ a. strncmp_differs a connection 10) same in
      absurd (ground (arith, strncmp_differs_refl connection 10)),
  rw (p, q) refl,
)
by_tests h hs false false true e p q r s =
    inr (
      λ same value. let n : length h.value ≡ 10 = ap length value in ground arith,
      rw (p, q, r) refl,
    )
by_tests h hs false false false true p q r s = inr (
  λ same value.
      let n = ap (λ a. strncmp_differs a keep_alive 10) value in
      ground (arith, strncmp_differs_refl keep_alive 10),
  rw (p, q, r, s) refl,
)
by_tests h hs false false false false p q r s =
    let n : length h.name ≡ 10 = ground arith in
    let v : length h.value ≡ 10 = ground arith in
    inl (
      strncmp_differs-same h.name connection 10 n refl connection-NoNul q,
      strncmp_differs-same h.value keep_alive 10 v refl keep_alive-NoNul s,
      rw (p, q, r, s) refl,
    )

verdict : (h : Header) (hs : List Header) → Verdict h hs
verdict h hs = by_tests h hs _ _ _ _ refl refl refl refl

Asks-tail :
    (h : Header) (hs : List Header)
    → (h.name ≡ connection → h.value ≢ keep_alive)
    → AsksKeepAlive (h ∷ hs)
    → AsksKeepAlive hs
Asks-tail h hs other (here n v) = absurd (other n v)
Asks-tail h hs other (there a) = a

from_lem :
    (hs : List Header)
    → AsksKeepAlive hs × (keep_alive_from hs ≡ 1) ⊎ (¬ AsksKeepAlive hs) × (keep_alive_from hs ≡ 0)
unfolding keep_alive_from
from_lem [] = inr (λ a. elim a [ ], refl)
from_lem (h ∷ hs) = elim (verdict h hs) [
  | inl (n, v, e) ↦ inl (here n v, e)
  | inr (other, e) ↦ elim (from_lem hs) [
    | inl (a, f) ↦ inl (there a, e ∙ f)
    | inr (na, f) ↦ inr (λ a. na (Asks-tail h hs other a), e ∙ f)
  ]
]

-- `context_keep_alive` answers 1 if one of the headers in use is named "Connection" and has the value
-- "Keep-Alive", both in just these letters, and 0 otherwise.
pub keep_alive_lem :
    (context : RequestContext)
    → let hs = take context.http_request.num_headers context.http_request.headers in
      AsksKeepAlive hs × (context_keep_alive context ≡ 1)
      ⊎ (¬ AsksKeepAlive hs) × (context_keep_alive context ≡ 0)
unfolding context_keep_alive
keep_alive_lem context =
    from_lem (take context.http_request.num_headers context.http_request.headers)
