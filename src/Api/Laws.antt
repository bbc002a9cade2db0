-- ===== src/Api/Laws.antt =====
-- `variables_local` of src/api.rs: which answers mean that the plan has no variables.
use figmog.Prelude.{
  ℕ, ◌≡◌, ◌≢◌, ◌↔◌, ◌⊎◌, inl, inr, refl, sym, ◌∙◌, true, false, Option, none, some, arith,
}
use figmog.Prelude.Tests.{◌==◌, nat_eq, nat_beq_iff, Bool-cases}
use figmog.Prelude.Text.{Str}
use figmog.Json.{Value}
use figmog.Api.{ApiError, ok, err, rate_limited, auth, http, network, parse}
use figmog.Api.Requests.{
  Fetched, status, body, unreached, error_from_status, get_json, gated, variables_local,
  variables_local_is_gated, wait_of,
}

-- The status says that the token may not see the variables, or that there are none.
abbrev pub Gates : Fetched → Type 0
Gates (status code retry msg) = (code ≡ 401) ⊎ ((code ≡ 403) ⊎ (code ≡ 404))
Gates _ = ⊥

-- What the status becomes, by what it is.
status_cases :
    (code : ℕ) (retry : Option Str) (msg : Str)
    → ((code ≡ 429) × (error_from_status code retry msg ≡ rate_limited (wait_of retry)))
      ⊎ ((((code ≡ 401) ⊎ (code ≡ 403)) × (error_from_status code retry msg ≡ auth))
          ⊎ ((code ≢ 401)
              × (code ≢ 403)
              × (code ≢ 429)
              × (error_from_status code retry msg ≡ http code msg)))
unfolding error_from_status
status_cases code retry msg = elim (Bool-cases (code == 429)) [
  | inl e ↦ inl ((nat_beq_iff code 429).0 e, rw (e, error_from_status) refl)
  | inr e ↦ elim (Bool-cases (code == 401)) [
    | inl f ↦ inr (inl (inl ((nat_beq_iff code 401).0 f), rw (e, f, error_from_status) refl))
    | inr f ↦ elim (Bool-cases (code == 403)) [
      | inl g ↦ inr (inl (inr ((nat_beq_iff code 403).0 g), rw (e, f, g, error_from_status) refl))
      | inr g ↦ inr (
          inr (
            λ p. let bad : true ≡ false = sym ((nat_beq_iff code 401).1 p) ∙ f in cc,
            λ p. let bad : true ≡ false = sym ((nat_beq_iff code 403).1 p) ∙ g in cc,
            λ p. let bad : true ≡ false = sym ((nat_beq_iff code 429).1 p) ∙ e in cc,
            rw (e, f, g, error_from_status) refl,
          ))
    ]
  ]
]

gated-status :
    (code : ℕ) (retry : Option Str) (msg : Str)
    → (gated (err (error_from_status code retry msg)) ≡ ok none) ↔ Gates (status code retry msg)
gated-status code retry msg = elim (status_cases code retry msg) [
  | inl (e, s) ↦ rw s (λ h. cc, λ g. absurd (other code e g))
  | inr (inl (e, s)) ↦ rw s (λ h. elim e [ inl p ↦ inl p | inr p ↦ inr (inl p) ], λ g. refl)
  | inr (inr (a, b, _, s)) ↦ rw s (by_code code a b msg)
]
  where
    other : (code : ℕ) → code ≡ 429 → (code ≡ 401) ⊎ ((code ≡ 403) ⊎ (code ≡ 404)) → ⊥
    other code e (inl p) = omega (arith, e, p)
    other code e (inr (inl p)) = omega (arith, e, p)
    other code e (inr (inr p)) = omega (arith, e, p)

    by_code :
        (code : ℕ)
        → code ≢ 401
        → code ≢ 403
        → (msg : Str)
        → (gated (err (http code msg)) ≡ ok none) ↔ ((code ≡ 401) ⊎ ((code ≡ 403) ⊎ (code ≡ 404)))
    by_code code a b msg = elim (Bool-cases (code == 404)) [
      | inl e ↦ (λ h. inr (inr ((nat_beq_iff code 404).0 e)), λ g. rw e refl)
      | inr e ↦ (
        λ h. let bad : err (http code msg) ≡ ok none = rw e at h in cc,
        λ g. elim g [
          | inl p ↦ absurd (a p)
          | inr (inl p) ↦ absurd (b p)
          | inr (inr p) ↦ let bad : true ≡ false = sym ((nat_beq_iff code 404).1 p) ∙ e in cc
        ],
      )
    ]

-- The failure that an answer is, where it is no gate.
abbrev pub Fails : Fetched → ApiError → Type 0
Fails (body (ok v)) e = ⊥
Fails (body (err m)) e = e ≡ parse m
Fails (status code retry msg) e =
    ¬ Gates (status code retry msg)
    × (((code ≡ 429) × (e ≡ rate_limited (wait_of retry))) ⊎ ((code ≢ 429) × (e ≡ http code msg)))
Fails (unreached m) e = e ≡ network m

gated-other :
    (e : ApiError)
    → variables_local_is_gated e ≡ false
    → (f : ApiError) → (gated (err e) ≡ err f) ↔ (f ≡ e)
gated-other e h f = ((λ k. let same : err e ≡ err f = rw h at k in cc), (λ k. rw (h, k) refl))

failed-status :
    (code : ℕ) (retry : Option Str) (msg : Str) (e : ApiError)
    → (gated (err (error_from_status code retry msg)) ≡ err e) ↔ Fails (status code retry msg) e
failed-status code retry msg e = elim (status_cases code retry msg) [
  | inl (c, s) ↦ rw s (
    (λ h. (
      (λ g. limited code c g),
      inl (c, ((gated-other (rate_limited (wait_of retry)) refl e).0 h)),
    )),
    (λ (g, k). elim k [
      | inl (_, q) ↦ (gated-other (rate_limited (wait_of retry)) refl e).1 q
      | inr (d, _) ↦ absurd (d c)
    ]),
  )
  | inr (inl (c, s)) ↦
      rw s ((λ h. cc), (λ (g, k). absurd (g (elim c [ inl p ↦ inl p | inr p ↦ inr (inl p) ]))))
  | inr (inr (a, b, d, s)) ↦ rw s (by_code a b d)
]
  where
    limited : (code : ℕ) → code ≡ 429 → (code ≡ 401) ⊎ ((code ≡ 403) ⊎ (code ≡ 404)) → ⊥
    limited code c (inl p) = omega (arith, c, p)
    limited code c (inr (inl p)) = omega (arith, c, p)
    limited code c (inr (inr p)) = omega (arith, c, p)

    by_code :
        code ≢ 401
        → code ≢ 403
        → code ≢ 429
        → (gated (err (http code msg)) ≡ err e) ↔ Fails (status code retry msg) e
    by_code a b d = elim (Bool-cases (code == 404)) [
      | inl c ↦ (
        (λ h. let bad : ok none ≡ err e = rw c at h in cc),
        (λ (g, k). absurd (g (inr (inr ((nat_beq_iff code 404).0 c))))),
      )
      | inr c ↦
          let same = gated-other (http code msg) c e in
          let apart : code ≢ 404 =
            λ p. let bad : true ≡ false = sym ((nat_beq_iff code 404).1 p) ∙ c in cc in
          (
            (λ h. (
              (λ g. elim g [ inl p ↦ a p | inr (inl p) ↦ b p | inr (inr p) ↦ apart p ]),
              inr (d, same.0 h),
            )),
            (λ (g, k). elim k [ inl (p, _) ↦ absurd (d p) | inr (_, q) ↦ same.1 q ]),
          )
    ]

gated-some : (e : ApiError) (v : Value) → ¬ (gated (err e) ≡ ok (some v))
gated-some e v h = elim (Bool-cases (variables_local_is_gated e)) [
  | inl g ↦ let bad : ok none ≡ ok (some v) = rw g at h in cc
  | inr g ↦ let bad : err e ≡ ok (some v) = rw g at h in cc
]

-- A file is taken to have no variables exactly where the answer to the request for them is the status
-- 401, 403 or 404. Otherwise it has those of the body, exactly where that is an answer that parses, or
-- the call fails: with a parse error where the body does not parse, with the wait where the status is
-- 429, with the status and its text for every other status, and with a network error where there is no
-- answer.
pub variables_local_iff :
    (answer : Fetched)
    → ((variables_local answer ≡ ok none) ↔ Gates answer)
      × ((v : Value) → (variables_local answer ≡ ok (some v)) ↔ (answer ≡ body (ok v)))
      × ((e : ApiError) → (variables_local answer ≡ err e) ↔ Fails answer e)
unfolding variables_local get_json
variables_local_iff (body (ok w)) =
    (((λ h. cc), λ g. absurd g), (λ v. ((λ h. cc), λ h. cc)), (λ e. ((λ h. cc), λ g. absurd g)))
variables_local_iff (body (err m)) =
    (((λ h. cc), λ g. absurd g), (λ v. ((λ h. cc), λ h. cc)), (λ e. gated-other (parse m) refl e))
variables_local_iff (status code retry msg) = (
  gated-status code retry msg,
  (λ v. ((λ h. absurd (gated-some (error_from_status code retry msg) v h)), λ h. cc)),
  (λ e. failed-status code retry msg e),
)
variables_local_iff (unreached m) =
    (((λ h. cc), λ g. absurd g), (λ v. ((λ h. cc), λ h. cc)), (λ e. gated-other (network m) refl e))
