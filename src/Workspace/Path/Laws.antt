-- ===== src/Workspace/Path/Laws.antt =====
-- Which paths normalizePath of relay/internal/workspace/workspace.go takes, and what it makes of them.
use appunvs.Prelude.{
  ℕ, zero, suc, ◌<◌, ◌≤◌, ◌≡◌, ◌≢◌, inl, inr, refl, ap, ◌∙◌, true, false, Option, none, some, List,
  [], ◌∷◌, ◌++◌, ◌==◌, nat_eq, codes_beq, has_prefix, if◌then◌else◌, All, Bool-cases, Option-cases,
  arith, length, length-append, strip_prefix?,
}
use mathlib.Core.List.{reverse, reverse-cons}
use appunvs.Workspace.Path.{
  Name, slash, dot_dot, push_code, split, join, to_slash, Walk, is_skipped, go_up, walk, replicate,
  or_dot, is_illegal,
}

-- A name that stands for a file or a directory: not empty, not "." or "..", and without separators.
abbrev pub HasNoSlash : Name → Type 0
HasNoSlash = All (λ c. c ≢ slash)

abbrev pub IsPlain : Name → Type 0
IsPlain = All (λ c. c ≢ 92)

abbrev pub IsName : Name → Type 0
IsName n = (is_skipped n ≡ false) × (codes_beq n dot_dot ≡ false) × HasNoSlash n

-- How deep the path leads below its start: none if it leaves it on the way.
abbrev pub up_from : ℕ → Option ℕ
up_from zero = none
up_from (suc d) = some d

abbrev pub deeper : Option ℕ → (ℕ → Option ℕ) → Option ℕ
deeper none f = none
deeper (some d) f = f d

abbrev pub enter : Name → ℕ → Option ℕ
enter n d = if is_skipped n then some d else if codes_beq n dot_dot then up_from d else some (suc d)

unfoldable pub depth : ℕ → List Name → Option ℕ
depth d [] = some d
depth d (n ∷ ns) = deeper (enter n d) (λ e. depth e ns)

All-push_code :
    (P : Name → Type 0) (c : ℕ) (ns : List Name)
    → ((n : Name) → P n → P (c ∷ n))
    → P []
    → All P ns
    → All P (push_code c ns)
unfolding push_code
All-push_code P c [] f e h = (f [] e, tt)
All-push_code P c (n ∷ ns) f e (p, ps) = (f n p, ps)

pub split_lem : (cs : List ℕ) → All HasNoSlash (split cs)
unfolding split
split_lem [] = (tt, tt)
split_lem (c ∷ cs) = elim (Bool-cases (c == slash)) [
  | inl e ↦ rw e (tt, split_lem cs)
  | inr e ↦
      rw e (All-push_code HasNoSlash c (split cs) (λ n p. (ground arith, p)) tt (split_lem cs))
]

pub IsPlain-split : (cs : List ℕ) → IsPlain cs → All IsPlain (split cs)
unfolding split
IsPlain-split [] h = (tt, tt)
IsPlain-split (c ∷ cs) (p, ps) = elim (Bool-cases (c == slash)) [
  | inl e ↦ rw e (tt, IsPlain-split cs ps)
  | inr e ↦ rw e (All-push_code IsPlain c (split cs) (λ n q. (p, q)) tt (IsPlain-split cs ps))
]

pub IsPlain-to_slash : (cs : List ℕ) → IsPlain (to_slash cs)
unfolding to_slash
IsPlain-to_slash [] = tt
IsPlain-to_slash (c ∷ cs) = (ground arith, IsPlain-to_slash cs)

step : Name → ℕ → List Name → Walk
unfolding go_up
step n ups names =
    if is_skipped n
    then record { ups = ups; names = names }
    else if codes_beq n dot_dot
    then go_up false ups names
    else record { ups = ups; names = n ∷ names }

-- One name: it leads to where `enter` says, or out.
step-enter :
    (n : Name) (ups : ℕ) (names : List Name) (d : ℕ)
    → enter n (length names) ≡ some d
    → ((step n ups names).ups ≡ ups) × (length (step n ups names).names ≡ d)
unfolding step go_up
step-enter n ups [] d h = ground arith
step-enter n ups (_ ∷ _) d h = ground arith

step_out :
    (n : Name) (ups : ℕ) (names : List Name)
    → enter n (length names) ≡ none
    → ups < (step n ups names).ups
unfolding step go_up
step_out n ups [] h = ground arith
step_out n ups (_ ∷ _) h = absurd (ground arith)

step_ups : (n : Name) (ups : ℕ) (names : List Name) → ups ≤ (step n ups names).ups
unfolding step go_up
step_ups n ups [] = ground arith
step_ups n ups (_ ∷ _) = ground arith

walk_ups : (ns : List Name) (w : Walk) → w.ups ≤ (walk false ns w).ups
unfolding walk step
walk_ups [] w = omega arith
walk_ups (n ∷ ns) w = omega (arith, step_ups n w.ups w.names, walk_ups ns (step n w.ups w.names))

pub walk-depth :
    (ns : List Name) (w : Walk) (d : ℕ)
    → depth (length w.names) ns ≡ some d
    → ((walk false ns w).ups ≡ w.ups) × (length (walk false ns w).names ≡ d)
unfolding walk depth step
walk-depth [] w d h = ground arith
walk-depth (n ∷ ns) w d h = elim (Option-cases (enter n (length w.names))) [
  | inl e ↦ absurd (ground (arith, h, e))
  | inr (m, e) ↦
      let w' = step n w.ups w.names in
      let (u, l) = step-enter n w.ups w.names m e in
      let k : depth (length w'.names) ns ≡ some d = ground (arith, h, e, l) in
      let (u', l') = walk-depth ns w' d k in (u' ∙ u, l')
]

pub walk_out :
    (ns : List Name) (w : Walk) → depth (length w.names) ns ≡ none → w.ups < (walk false ns w).ups
unfolding walk depth step
walk_out [] w h = absurd (ground arith)
walk_out (n ∷ ns) w h = elim (Option-cases (enter n (length w.names))) [
  | inl e ↦ omega (arith, step_out n w.ups w.names e, walk_ups ns (step n w.ups w.names))
  | inr (m, e) ↦
      let w' = step n w.ups w.names in
      let (u, l) = step-enter n w.ups w.names m e in
      let k : depth (length w'.names) ns ≡ none = ground (arith, h, e, l) in
      omega (arith, u, walk_out ns w' k)
]

module _ (Q P : Name → Type 0)
    (named : (n : Name) → Q n → is_skipped n ≡ false → codes_beq n dot_dot ≡ false → P n) where
  All-step :
      (n : Name) (ups : ℕ) (names : List Name) → Q n → All P names → All P (step n ups names).names
  unfolding step go_up
  All-step n ups names q h = elim (Bool-cases (is_skipped n)) [
    | inl e ↦ rw e h
    | inr e ↦ elim (Bool-cases (codes_beq n dot_dot)) [
      | inr f ↦ rw (e, f) (named n q e f, h)
      | inl f ↦ rw (e, f) (up names h)
    ]
  ]
    where
      up : (ms : List Name) → All P ms → All P (go_up false ups ms).names
      up [] k = tt
      up (m ∷ ms) k = k.1

  pub walk-All :
      (ns : List Name) (w : Walk) → All Q ns → All P w.names → All P (walk false ns w).names
  unfolding walk step
  walk-All [] w h k = k
  walk-All (n ∷ ns) w (q, qs) k =
      walk-All ns (step n w.ups w.names) qs (All-step n w.ups w.names q k)

pub All-append : (P : Name → Type 0) (xs ys : List Name) → All P xs → All P ys → All P (xs ++ ys)
All-append P [] ys h k = k
All-append P (x ∷ xs) ys (p, ps) k = (p, All-append P xs ys ps k)

pub All-reverse : (P : Name → Type 0) (xs : List Name) → All P xs → All P (reverse xs)
All-reverse P [] h = h
All-reverse P (x ∷ xs) (p, ps) =
    rw (reverse-cons x xs) (All-append P (reverse xs) (x ∷ []) (All-reverse P xs ps) (p, tt))

pub length-reverse : (xs : List Name) → length (reverse xs) ≡ length xs
length-reverse [] = refl
length-reverse (x ∷ xs) =
    ap length (reverse-cons x xs)
    ∙ length-append (reverse xs) (x ∷ [])
    ∙ omega (arith, length-reverse xs)

-- The names of a path inside: they are names, and stay what they are.
pub legal_lem : (n : Name) (ns : List Name) → IsName n → is_illegal (join (n ∷ ns)) ≡ false
unfolding is_illegal join has_prefix strip_prefix? codes_beq is_skipped
legal_lem [] ns (s, d, h) = absurd (ground arith)
legal_lem (c ∷ []) [] (s, d, h) = ground arith
legal_lem (c ∷ []) (m ∷ ns) (s, d, h) = ground arith
legal_lem (c ∷ e ∷ []) [] (s, d, h) = ground arith
legal_lem (c ∷ e ∷ []) (m ∷ ns) (s, d, h) = ground arith
legal_lem (c ∷ e ∷ f ∷ r) [] (s, d, h) = ground arith
legal_lem (c ∷ e ∷ f ∷ r) (m ∷ ns) (s, d, h) = ground arith

pub join-cons : (n : Name) (ns : List Name) → IsName n → or_dot (join (n ∷ ns)) ≡ join (n ∷ ns)
unfolding or_dot join is_skipped codes_beq
join-cons [] ns (s, d, h) = absurd (ground arith)
join-cons (c ∷ r) [] h = refl
join-cons (c ∷ r) (m ∷ ns) h = refl

-- What leads out, and the start itself, are refused.
pub illegal_out :
    (k : ℕ) (ns : List Name) → is_illegal (or_dot (join (replicate (suc k) dot_dot ++ ns))) ≡ true
unfolding is_illegal join has_prefix strip_prefix? codes_beq replicate or_dot
illegal_out zero [] = refl
illegal_out zero (m ∷ ns) = refl
illegal_out (suc k) ns = refl

pub illegal_dot : is_illegal (or_dot (join [])) ≡ true
unfolding is_illegal join has_prefix strip_prefix? codes_beq or_dot
illegal_dot = refl

pub illegal_abs : (cs : List ℕ) → is_illegal (slash ∷ cs) ≡ true
unfolding is_illegal has_prefix strip_prefix?
illegal_abs cs = refl
