-- ===== src/Workspace/Path/Stable.antt =====
-- A path that normalizePath of relay/internal/workspace/workspace.go made stays what it is.
use appunvs.Prelude.{
  ℕ, ◌≡◌, ◌≢◌, refl, ap, ◌∙◌, true, false, some, List, [], ◌∷◌, ◌++◌, nat_eq, codes_beq, All, arith,
}
use mathlib.Core.List.{reverse, reverse_aux, reverse-reverse}
use appunvs.Workspace.Path.{
  Name, slash, dot, push_code, split, join, to_slash, is_skipped, walk, replicate, or_dot,
  clean_names, is_abs, clean, is_illegal, normalize_path,
}
use appunvs.Workspace.Path.Laws.{HasNoSlash, IsPlain, IsName, join-cons, legal_lem, All-reverse}
use appunvs.Workspace.Path.Normal.{start, clean_lem, normalize_lem, normalize_path-IsNormal}
use appunvs.Sandbox.Paths.{any_dot_dot, has_parent_traversal, is_clean_rel_path}

pub split-join_one : (n : Name) → HasNoSlash n → split n ≡ n ∷ []
unfolding split push_code
split-join_one [] h = refl
split-join_one (c ∷ n) (p, ps) = rw (split-join_one n ps) (ground (arith, p))

pub split-append :
    (n : Name) (rest : List ℕ) → HasNoSlash n → split (n ++ slash ∷ rest) ≡ n ∷ split rest
unfolding split push_code
split-append [] rest h = ground arith
split-append (c ∷ n) rest (p, ps) = rw (split-append n rest ps) (ground (arith, p))

pub split-join : (n : Name) (ns : List Name) → All IsName (n ∷ ns) → split (join (n ∷ ns)) ≡ n ∷ ns
unfolding join
split-join n [] ((_, _, h), _) = split-join_one n h
split-join n (m ∷ ns) ((_, _, h), hs) =
    split-append n (join (m ∷ ns)) h ∙ ap (λ l. n ∷ l) (split-join m ns hs)

to_slash_one : (n : Name) → IsPlain n → to_slash n ≡ n
unfolding to_slash
to_slash_one [] h = refl
to_slash_one (c ∷ n) (p, ps) = let e = to_slash_one n ps in ground (arith, p, e)

to_slash-append :
    (xs ys : List ℕ) → IsPlain xs → to_slash (xs ++ slash ∷ ys) ≡ xs ++ slash ∷ to_slash ys
unfolding to_slash
to_slash-append [] ys h = ground arith
to_slash-append (c ∷ xs) ys (p, ps) = let e = to_slash-append xs ys ps in ground (arith, p, e)

to_slash-join : (ns : List Name) → All IsPlain ns → to_slash (join ns) ≡ join ns
unfolding join
to_slash-join [] h = unfold to_slash in refl
to_slash-join (n ∷ []) (p, _) = to_slash_one n p
to_slash-join (n ∷ m ∷ ns) (p, ps) =
    to_slash-append n (join (m ∷ ns)) p ∙ ap (λ l. n ++ slash ∷ l) (to_slash-join (m ∷ ns) ps)

walk_names :
    (ns : List Name) (ups : ℕ) (done : List Name)
    → All IsName ns
    → walk false ns (record { ups = ups; names = done })
      ≡ record { ups = ups; names = reverse_aux ns done }
unfolding walk
walk_names [] ups done h = refl
walk_names (n ∷ ns) ups done ((s, d, h), hs) = rw (s, d) (walk_names ns ups (n ∷ done) hs)

is_abs-join : (n : Name) (ns : List Name) → IsName n → is_abs (join (n ∷ ns)) ≡ false
unfolding is_abs join is_skipped codes_beq
is_abs-join [] ns (s, d, h) = absurd (ground arith)
is_abs-join (c ∷ r) [] (s, d, h) = ground arith
is_abs-join (c ∷ r) (m ∷ ns) (s, d, h) = ground arith

clean-join :
    (n : Name) (ns : List Name) → All IsName (n ∷ ns) → clean (join (n ∷ ns)) ≡ join (n ∷ ns)
unfolding replicate
clean-join n ns (h, hs) =
    let w =
      ap (λ l. walk false l start) (split-join n ns (h, hs)) ∙ walk_names (n ∷ ns) 0 [] (h, hs) in
    clean_lem (join (n ∷ ns)) _ (is_abs-join n ns h) w
    ∙ ap (λ l. or_dot (join l)) (reverse-reverse (n ∷ ns))
    ∙ join-cons n ns h

clean_nil : clean [] ≡ dot
unfolding clean clean_names replicate split is_skipped or_dot is_abs join codes_beq
clean_nil = refl

normalize-join :
    (n : Name) (ns : List Name)
    → All IsName (n ∷ ns)
    → All IsPlain (n ∷ ns)
    → normalize_path (join (n ∷ ns)) ≡ some (join (n ∷ ns))
normalize-join n ns h k =
    nonempty (join (n ∷ ns)) (to_slash-join (n ∷ ns) k) (clean-join n ns h) (legal_lem n ns h.0)
  where
    nonempty :
        (q : List ℕ)
        → to_slash q ≡ q
        → clean q ≡ q
        → is_illegal q ≡ false
        → normalize_path q ≡ some q
    nonempty [] a b c = absurd (ground (arith, b, clean_nil))
    nonempty (c ∷ cs) a b d = normalize_lem c cs (c ∷ cs) (ap clean a ∙ b) ∙ rw d refl

any_dot_dot_of_names : (ns : List Name) → All IsName ns → any_dot_dot ns ≡ false
unfolding any_dot_dot
any_dot_dot_of_names [] h = refl
any_dot_dot_of_names (n ∷ ns) ((s, d, h), hs) = rw (d, any_dot_dot_of_names ns hs) refl

is_clean_rel_path_of :
    (q : List ℕ)
    → is_abs q ≡ false
    → clean q ≡ q
    → is_illegal q ≡ false
    → has_parent_traversal q ≡ false
    → is_clean_rel_path q ≡ true
unfolding is_clean_rel_path is_illegal
is_clean_rel_path_of [] a b i h = absurd (ground (arith, b, clean_nil))
is_clean_rel_path_of (c ∷ cs) a b i h = ground (arith, a, b, i, h)

is_clean_rel_path-join :
    (n : Name) (ns : List Name) → All IsName (n ∷ ns) → is_clean_rel_path (join (n ∷ ns)) ≡ true
is_clean_rel_path-join n ns h =
    is_clean_rel_path_of (join (n ∷ ns)) (is_abs-join n ns h.0) (clean-join n ns h)
      (legal_lem n ns h.0)
      (unfold has_parent_traversal in
        ap (λ l. any_dot_dot (reverse l)) (split-join n ns h)
        ∙ any_dot_dot_of_names (reverse (n ∷ ns)) (All-reverse IsName (n ∷ ns) h))

-- What normalizePath makes of a path it leaves alone when it sees it again, and the sandbox takes it
-- as the path of a source file.
pub normalize_path_twice :
    (p q : List ℕ)
    → normalize_path p ≡ some q
    → (normalize_path q ≡ some q) × (is_clean_rel_path q ≡ true)
normalize_path_twice p q e =
    let v = normalize_path-IsNormal p q e in
    rw v.joined (stable v.names v.some_name v.all_names v.all_plain)
  where
    stable :
        (ns : List Name)
        → ns ≢ []
        → All IsName ns
        → All IsPlain ns
        → (normalize_path (join ns) ≡ some (join ns)) × (is_clean_rel_path (join ns) ≡ true)
    stable [] n h k = absurd (n refl)
    stable (m ∷ ns) n h k = (normalize-join m ns h k, is_clean_rel_path-join m ns h)
