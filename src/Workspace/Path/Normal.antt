-- ===== src/Workspace/Path/Normal.antt =====
-- normalizePath of relay/internal/workspace/workspace.go against the walk that a path describes.
use appunvs.Prelude.{
  ℕ, zero, suc, ◌-◌, ◌<◌, ◌≡◌, ◌≢◌, ◌↔◌, ◌⊎◌, inl, inr, refl, ap, ◌∙◌, true, false, Option, none,
  some, List, [], ◌∷◌, ◌++◌, nat_eq, if◌then◌else◌, All, Bool-cases, arith, length,
}
use mathlib.Core.List.{reverse}
use appunvs.Workspace.Path.{
  Name, slash, dot_dot, split, join, to_slash, Walk, walk, replicate, or_dot, clean_names, is_abs,
  clean, is_illegal, normalize_path,
}
use appunvs.Workspace.Path.Laws.{
  HasNoSlash, IsPlain, IsName, depth, split_lem, IsPlain-split, IsPlain-to_slash, walk-depth,
  walk_out, walk-All, All-reverse, length-reverse, legal_lem, join-cons, illegal_out, illegal_dot,
  illegal_abs,
}

abbrev pub start : Walk
start = record { ups = 0; names = [] }

-- A path that stays below its start on the way and ends below it.
abbrev pub Inside : List ℕ → Type 0
Inside p = (is_abs (to_slash p) ≡ false) × ((d : ℕ) × (depth 0 (split (to_slash p)) ≡ some (suc d)))

-- What a path is turned into.
pub record IsNormal (q : List ℕ) : Type 0 where
  pub names : List Name
  pub joined : q ≡ join names
  pub some_name : names ≢ []
  pub all_names : All IsName names
  pub all_plain : All IsPlain names

IsNormal-walk :
    (c : ℕ) (cs : List ℕ) (w : Walk)
    → walk false (split (to_slash (c ∷ cs))) start ≡ w
    → All IsName (reverse w.names) × All IsPlain (reverse w.names)
IsNormal-walk c cs w e =
    let p = to_slash (c ∷ cs) in
    let a = walk-All HasNoSlash IsName (λ n h s d. (s, d, h)) (split p) start (split_lem p) tt in
    let b =
      walk-All IsPlain IsPlain (λ n h s d. h) (split p) start
        (IsPlain-split p (IsPlain-to_slash (c ∷ cs))) tt in
    (All-reverse IsName w.names (rw e at a), All-reverse IsPlain w.names (rw e at b))

pub clean_lem :
    (p : List ℕ) (w : Walk)
    → is_abs p ≡ false
    → walk false (split p) start ≡ w
    → clean p ≡ or_dot (join (replicate w.ups dot_dot ++ reverse w.names))
unfolding clean clean_names
clean_lem p w rel e = rw (rel, e) refl

pub normalize_lem :
    (c : ℕ) (cs q : List ℕ)
    → clean (to_slash (c ∷ cs)) ≡ q
    → normalize_path (c ∷ cs) ≡ (if is_illegal q then none else some q)
unfolding normalize_path
normalize_lem c cs q e = rw e refl

normalize_of :
    (c : ℕ) (cs : List ℕ) (w : Walk) (n : Name) (ns : List Name)
    → is_abs (to_slash (c ∷ cs)) ≡ false
    → walk false (split (to_slash (c ∷ cs))) start ≡ w
    → w.ups ≡ 0
    → reverse w.names ≡ n ∷ ns
    → IsName n
    → normalize_path (c ∷ cs) ≡ some (join (n ∷ ns))
unfolding replicate
normalize_of c cs w n ns rel e u r h =
    let names : replicate w.ups dot_dot ++ reverse w.names ≡ n ∷ ns = rw u r in
    let q =
      clean_lem (to_slash (c ∷ cs)) w rel e ∙ ap (λ l. or_dot (join l)) names ∙ join-cons n ns h in
    normalize_lem c cs (join (n ∷ ns)) q ∙ rw (legal_lem n ns h) refl

refused_of :
    (c : ℕ) (cs : List ℕ) (w : Walk)
    → is_abs (to_slash (c ∷ cs)) ≡ false
    → walk false (split (to_slash (c ∷ cs))) start ≡ w
    → (0 < w.ups) ⊎ ((w.ups ≡ 0) × (w.names ≡ []))
    → normalize_path (c ∷ cs) ≡ none
refused_of c cs w rel e (inl u) =
    let names : w.ups ≡ suc (w.ups - 1) = omega arith in
    let q =
      clean_lem (to_slash (c ∷ cs)) w rel e
      ∙ ap (λ k. or_dot (join (replicate k dot_dot ++ reverse w.names))) names in
    normalize_lem c cs _ q ∙ rw (illegal_out (w.ups - 1) (reverse w.names)) refl
refused_of c cs w rel e (inr (u, empty)) =
    let q = clean_lem (to_slash (c ∷ cs)) w rel e ∙ at_start w.ups w.names u empty in
    normalize_lem c cs _ q ∙ rw illegal_dot refl
  where
    at_start :
        (ups : ℕ) (names : List Name)
        → ups ≡ 0
        → names ≡ []
        → or_dot (join (replicate ups dot_dot ++ reverse names)) ≡ or_dot (join [])
    at_start ups names x y = rw (x, y) (unfold replicate in refl)

refused_abs :
    (c : ℕ) (cs : List ℕ) → is_abs (to_slash (c ∷ cs)) ≡ true → normalize_path (c ∷ cs) ≡ none
refused_abs c cs h = normalize_lem c cs _ (abs_lem (to_slash (c ∷ cs)) h) ∙ rw illegal_abs refl
  where
    abs_lem : (p : List ℕ) → is_abs p ≡ true → clean p ≡ slash ∷ join (clean_names true p)
    abs_lem p e = unfold clean in rw e refl

-- A path is turned into a normal one, or refused because it is absolute, leaves the workspace on the
-- way or ends where it starts.
data Outcome (p : List ℕ) : Type 0 where
  taken : (q : List ℕ) → normalize_path p ≡ some q → Inside p → IsNormal q → Outcome p
  refused : normalize_path p ≡ none → ¬ Inside p → Outcome p

empty_of_length : (ns : List Name) → length ns ≡ 0 → ns ≡ []
empty_of_length [] h = refl
empty_of_length (n ∷ ns) h = absurd (omega (arith, h))

by_depth :
    (c : ℕ) (cs : List ℕ) (o : Option ℕ)
    → is_abs (to_slash (c ∷ cs)) ≡ false
    → depth 0 (split (to_slash (c ∷ cs))) ≡ o
    → Outcome (c ∷ cs)
by_depth c cs none rel e =
    let p = to_slash (c ∷ cs) in
    refused (refused_of c cs _ rel refl (inl (walk_out (split p) start e)))
      (λ (_, (d, f)). ground (arith, e, f))
by_depth c cs (some zero) rel e =
    let p = to_slash (c ∷ cs) in
    let (u, l) = walk-depth (split p) start 0 e in
    refused
      (refused_of c cs _ rel refl (inr (u, empty_of_length (walk false (split p) start).names l)))
      (λ (_, (d, f)). ground (arith, e, f))
by_depth c cs (some (suc d)) rel e =
    let p = to_slash (c ∷ cs) in
    let w = walk false (split p) start in
    let (u, l) = walk-depth (split p) start (suc d) e in
    let (named, plain) = IsNormal-walk c cs w refl in
    named_path (reverse w.names) refl (length-reverse w.names ∙ l) u named plain
  where
    named_path :
        (ns : List Name)
        → reverse (walk false (split (to_slash (c ∷ cs))) start).names ≡ ns
        → length ns ≡ suc d
        → (walk false (split (to_slash (c ∷ cs))) start).ups ≡ 0
        → All IsName ns
        → All IsPlain ns
        → Outcome (c ∷ cs)
    named_path [] r l u h k = absurd (omega (arith, l))
    named_path (n ∷ ns) r l u h k =
        taken (join (n ∷ ns)) (normalize_of c cs _ n ns rel refl u r h.0) (rel, (d, e))
          (record {
            names = n ∷ ns;
            joined = refl;
            some_name = λ x. ground (arith, x);
            all_names = h;
            all_plain = k;
          })

outcome : (c : ℕ) (cs : List ℕ) → Outcome (c ∷ cs)
outcome c cs = elim (Bool-cases (is_abs (to_slash (c ∷ cs)))) [
  | inl a ↦ refused (refused_abs c cs a) (λ (rel, _). ground (arith, a, rel))
  | inr rel ↦ by_depth c cs (depth 0 (split (to_slash (c ∷ cs)))) rel refl
]

-- A path is taken exactly when it is not empty and not absolute, does not leave the workspace on the
-- way, and leads to something below it.
pub normalize_path-Inside :
    (p : List ℕ) → ((q : List ℕ) × (normalize_path p ≡ some q)) ↔ ((p ≢ []) × Inside p)
unfolding normalize_path
normalize_path-Inside [] = (λ (q, e). ground (arith, e), λ (n, _). absurd (n refl))
normalize_path-Inside (c ∷ cs) = elim (outcome c cs) [
  | taken q e i n ↦ (λ _. (λ x. ground (arith, x), i), λ _. (q, e))
  | refused e out ↦ (λ (q, x). absurd (ground (arith, e, x)), λ (_, i). absurd (out i))
]

pub normalize_path-IsNormal : (p q : List ℕ) → normalize_path p ≡ some q → IsNormal q
unfolding normalize_path
normalize_path-IsNormal [] q e = absurd (ground (arith, e))
normalize_path-IsNormal (c ∷ cs) q e = elim (outcome c cs) [
  | taken r f i n ↦ let same : r ≡ q = ground (arith, e, f) in rw same at n
  | refused f out ↦ absurd (ground (arith, e, f))
]
