-- ===== src/Workspace/Tree/Lookup.antt =====
-- The nested trees of relay/internal/workspace/workspace.go hold what the flat map holds.
use appunvs.Prelude.{
  ℕ, ◌≡◌, refl, sym, ap, ◌∙◌, Bool, true, false, ◌&&◌, Option, none, some, List, [], ◌∷◌, ◌++◌,
  codes_beq, is_some, ◌⊎◌, nat_eq, ◌==◌, if◌then◌else◌, arith, Bool-cases, Option-cases, inl, inr,
}
use mathlib.Core.Option.{or_else}
pub use appunvs.Prelude.Codes.{codes_beq_refl, codes_beq_sound, codes_beq_iff}
use appunvs.Workspace.Path.{Name, slash, push_code, split, join}
use appunvs.Workspace.Tree.{
  FileEntry, look, set, Child, Dirs, empty_child, update_dir, put_path, Flat, build,
}

-- Two names are the same or apart.
pub data Compared (m n : List ℕ) : Type 0 where
  same : m ≡ n → Compared m n
  apart : codes_beq m n ≡ false → Compared m n

pub compared : (m n : List ℕ) → Compared m n
compared m n = elim (Bool-cases (codes_beq m n)) [
  | inl e ↦ same (codes_beq_sound m n e)
  | inr e ↦ apart e
]

abbrev pub find_dir : Name → Dirs → Option Child
find_dir n Dirs.end = none
find_dir n (Dirs.dir m c ds) = if codes_beq m n then some c else find_dir n ds

abbrev pub into : {A B : Type 0} → Option B → (B → Option A) → Option A
into none f = none
into (some b) f = f b

-- What lies under a path of names.
unfoldable pub at : List Name → Child → Option FileEntry
at [] c = none
at (n ∷ []) (Child.node files dirs) = look n files
at (n ∷ m ∷ ns) (Child.node files dirs) = into (find_dir n dirs) (at (m ∷ ns))

pub look-set :
    {V : Type 0} (k j : List ℕ) (v : V) (m : List (List ℕ × V))
    → look j (set k v m) ≡ (if codes_beq k j then some v else look j m)
unfolding look set
look-set k j v [] = refl
look-set k j v ((i, w) ∷ m) =
    let rest = look-set k j v m in
    ground (arith, codes_beq_iff k j, codes_beq_iff i k, codes_beq_iff i j, rest)

names_beq : List Name → List Name → Bool
names_beq [] [] = true
names_beq [] (_ ∷ _) = false
names_beq (_ ∷ _) [] = false
names_beq (n ∷ ns) (m ∷ ms) = codes_beq n m && names_beq ns ms

find_dir-update :
    (n m : Name) (f : Child → Child) (ds : Dirs)
    → find_dir m (update_dir n f ds) ≡ (
        if codes_beq n m
        then some (elim (find_dir n ds) [ none ↦ f empty_child | some c ↦ f c ])
        else find_dir m ds)
unfolding update_dir
find_dir-update n m f Dirs.end = ground arith
find_dir-update n m f (Dirs.dir i c ds) =
    let rest = find_dir-update n m f ds in
    ground (arith, codes_beq_iff n m, codes_beq_iff i n, codes_beq_iff i m, rest)

at_empty : (n : Name) (ns : List Name) → at (n ∷ ns) empty_child ≡ none
unfolding at look
at_empty n [] = refl
at_empty n (m ∷ ns) = refl

at-put :
    (n : Name) (ns q : List Name) (e : FileEntry) (c : Child)
    → at q (put_path (n ∷ ns) e c) ≡ (if names_beq (n ∷ ns) q then some e else at q c)
unfolding at put_path names_beq
at-put n [] [] e (Child.node files dirs) = refl
at-put n [] (m ∷ []) e (Child.node files dirs) = let l = look-set n m e files in ground (arith, l)
at-put n [] (m ∷ m' ∷ q) e (Child.node files dirs) = ground arith
at-put n (n' ∷ ns) [] e (Child.node files dirs) = refl
at-put n (n' ∷ ns) (m ∷ []) e (Child.node files dirs) = ground arith
at-put n (n' ∷ ns) (m ∷ m' ∷ q) e (Child.node files dirs) = elim (Bool-cases (codes_beq n m)) [
  | inl h ↦ elim (Option-cases (find_dir n dirs)) [
    | inl x ↦
        let u = find_dir-update n m (put_path (n' ∷ ns) e) dirs in
        let ih = at-put n' ns (m' ∷ q) e empty_child in
        let no = at_empty m' q in
        let same = codes_beq_sound n m h in ground (arith, h, x, u, ih, no, same)
    | inr (child, x) ↦
        let u = find_dir-update n m (put_path (n' ∷ ns) e) dirs in
        let ih = at-put n' ns (m' ∷ q) e child in
        let same = codes_beq_sound n m h in ground (arith, h, x, u, ih, same)
  ]
  | inr h ↦ let u = find_dir-update n m (put_path (n' ∷ ns) e) dirs in ground (arith, h, u)
]

split-cons : (p : List ℕ) → (n : Name) × (ns : List Name) × (split p ≡ n ∷ ns)
unfolding split push_code
split-cons [] = ([], [], refl)
split-cons (c ∷ cs) = elim (Bool-cases (c == slash)) [
  | inl e ↦ ([], split cs, ground (arith, e))
  | inr e ↦ let (n, ns, s) = split-cons cs in (c ∷ n, ns, ground (arith, e, s))
]

join-split : (p : List ℕ) → join (split p) ≡ p
unfolding join split push_code
join-split [] = refl
join-split (c ∷ cs) =
    let (n, ns, s) = split-cons cs in
    let ih = rw s at (join-split cs) in
    elim (Bool-cases (c == slash)) [
      | inl e ↦ let same : c ≡ slash = ground arith in rw (e, s) (ground (arith, ih, same))
      | inr e ↦ rw (e, s) (pushed n ns ih)
    ]
  where
    pushed : (n : Name) (ns : List Name) → join (n ∷ ns) ≡ cs → join ((c ∷ n) ∷ ns) ≡ c ∷ cs
    pushed n [] h = ap (λ l. c ∷ l) h
    pushed n (m ∷ ns) h = ap (λ l. c ∷ l) h

names_beq_refl : (ns : List Name) → names_beq ns ns ≡ true
unfolding names_beq
names_beq_refl [] = refl
names_beq_refl (n ∷ ns) = rw (codes_beq_refl n, names_beq_refl ns) refl

names_beq_sound : (ns ms : List Name) → names_beq ns ms ≡ true → ns ≡ ms
unfolding names_beq
names_beq_sound [] [] h = refl
names_beq_sound [] (m ∷ ms) h = absurd (ground arith)
names_beq_sound (n ∷ ns) [] h = absurd (ground arith)
names_beq_sound (n ∷ ns) (m ∷ ms) h =
    let a = codes_beq_sound n m (ground arith) in let b = names_beq_sound ns ms (ground arith) in cc

names_beq-split : (p q : List ℕ) → names_beq (split p) (split q) ≡ codes_beq p q
names_beq-split p q = elim (compared p q) [
  | same e ↦ rw e (names_beq_refl (split q) ∙ sym (codes_beq_refl q))
  | apart e ↦ elim (Bool-cases (names_beq (split p) (split q))) [
    | inr x ↦ x ∙ sym e
    | inl x ↦
        let joined = ap join (names_beq_sound (split p) (split q) x) in
        let eq : p ≡ q = sym (join-split p) ∙ joined ∙ join-split q in
        absurd (ground (arith, e, codes_beq_iff p q))
  ]
]

at-put_path :
    (p q : List ℕ) (e : FileEntry) (c : Child)
    → at (split q) (put_path (split p) e c) ≡ (if codes_beq p q then some e else at (split q) c)
at-put_path p q e c =
    let (n, ns, s) = split-cons p in rw (← names_beq-split p q, s) (at-put n ns (split q) e c)

-- Each path once.
abbrev pub HasUniquePaths : Flat → Type 0
HasUniquePaths [] = Unit {0}
HasUniquePaths ((path, e) ∷ flat) = (look path flat ≡ none) × HasUniquePaths flat

at-build_from :
    (flat : Flat) (c : Child) (q : List ℕ)
    → HasUniquePaths flat
    → at (split q) (build flat c) ≡ or_else (look q flat) (at (split q) c)
unfolding build look or_else
at-build_from [] c q u = refl
at-build_from ((path, e) ∷ flat) c q (fresh, u) =
    let ih = at-build_from flat (put_path (split path) e c) q u in
    let put = at-put_path path q e c in ground (arith, ih, put, fresh, codes_beq_iff path q)

-- The nested trees hold at every path what the flat map holds there.
pub at-build :
    (flat : Flat) (q : List ℕ)
    → HasUniquePaths flat
    → at (split q) (build flat empty_child) ≡ look q flat
unfolding or_else
at-build flat q u =
    let (n, ns, s) = split-cons q in
    let nothing : at (split q) empty_child ≡ none = rw s (at_empty n ns) in
    let all = at-build_from flat empty_child q u in
    ground (arith, nothing, all, Option-cases (look q flat))

-- Only paths of the map lead to a file in the nested trees.
at-build_back :
    (flat : Flat) (c : Child) (q : List Name) (e : FileEntry)
    → HasUniquePaths flat
    → at q (build flat c) ≡ some e
    → ((p : List ℕ) × (split p ≡ q) × (look p flat ≡ some e)) ⊎ (at q c ≡ some e)
unfolding build look
at-build_back [] c q e u h = inr h
at-build_back ((path, e') ∷ flat) c q e (fresh, u) h =
    elim (at-build_back flat (put_path (split path) e' c) q e u h) [
      | inl (p, s, l) ↦ inl (p, s, older p l)
      | inr put ↦
          let (n, ns, s) = split-cons path in
          let law = rw (← s) at (at-put n ns q e' c) in
          elim (Bool-cases (names_beq (split path) q)) [
            | inl b ↦
                let own : e' ≡ e = ground (arith, b, law, put) in
                inl (path, names_beq_sound (split path) q b, rw (codes_beq_refl path) (ap some own))
            | inr b ↦ inr (ground (arith, b, law, put))
          ]
    ]
  where
    older :
        (p : List ℕ)
        → look p flat ≡ some e
        → (if codes_beq path p then some e' else look p flat) ≡ some e
    older p l = elim (compared path p) [
      | same x ↦ absurd (let f = rw x at fresh in ground (arith, f, l))
      | apart x ↦ rw x l
    ]

-- No path of the map leads through another one.
abbrev pub IsClear : {A : Type 0} → (List ℕ → Option A) → Type 0
IsClear f =
    (p q : List ℕ) (m : Name) (ms : List Name)
    → split q ≡ split p ++ m ∷ ms
    → (f p ≡ none) ⊎ (f q ≡ none)

-- What lies under a path of names if a file hides the directory of the same name.
unfoldable pub at_first : List Name → Child → Option FileEntry
at_first [] c = none
at_first (n ∷ []) (Child.node files dirs) = look n files
at_first (n ∷ m ∷ ns) (Child.node files dirs) =
    let below = into (find_dir n dirs) (at_first (m ∷ ns)) in
    if is_some (look n files) then none else below

at_first_sound :
    (q : List Name) (c : Child) (e : FileEntry) → at_first q c ≡ some e → at q c ≡ some e
unfolding at_first at
at_first_sound [] c e h = absurd (ground arith)
at_first_sound (n ∷ []) (Child.node files dirs) e h = h
at_first_sound (n ∷ m ∷ ns) (Child.node files dirs) e h = elim (Option-cases (find_dir n dirs)) [
  | inl x ↦ absurd (ground (arith, x, h))
  | inr (sub, x) ↦
      let ih = at_first_sound (m ∷ ns) sub e in
      elim (Bool-cases (is_some (look n files))) [
        | inl y ↦ absurd (ground (arith, y, h))
        | inr y ↦ let h' = rw (x, y) at h in rw x (ih h')
      ]
]

at_first_full :
    (q : List Name) (c : Child) (e : FileEntry)
    → at q c ≡ some e
    → ((p : List Name) (m : Name) (ms : List Name) → q ≡ p ++ m ∷ ms → at p c ≡ none)
    → at_first q c ≡ some e
unfolding at_first at
at_first_full [] c e h clear = absurd (ground arith)
at_first_full (n ∷ []) (Child.node files dirs) e h clear = h
at_first_full (n ∷ m ∷ ns) (Child.node files dirs) e h clear =
    elim (Option-cases (find_dir n dirs)) [
      | inl x ↦ absurd (ground (arith, x, h))
      | inr (sub, x) ↦
          let bare : look n files ≡ none = clear (n ∷ []) m ns refl in
          let h' = rw x at h in rw (bare, x) (at_first_full (m ∷ ns) sub e h' (below sub x))
    ]
  where
    below :
        (sub : Child)
        → find_dir n dirs ≡ some sub
        → (p : List Name) (k : Name) (ms : List Name) → m ∷ ns ≡ p ++ k ∷ ms
        → at p sub ≡ none
    below sub x [] k ms s = refl
    below sub x (y ∷ p) k ms s = let c = clear (n ∷ y ∷ p) k ms (ap (λ z. n ∷ z) s) in rw x at c

-- In a map where no path leads through another, no file hides a path of the map.
pub at_first-build :
    (flat : Flat) (q : List ℕ)
    → HasUniquePaths flat
    → IsClear (λ p. look p flat)
    → at_first (split q) (build flat empty_child) ≡ look q flat
at_first-build flat q u clear = elim (Option-cases (look q flat)) [
  | inl x ↦ elim (Option-cases (at_first (split q) (build flat empty_child))) [
    | inl y ↦ y ∙ sym x
    | inr (e, y) ↦
        let z = at_first_sound (split q) (build flat empty_child) e y in
        absurd (let l = at-build flat q u in ground (arith, x, z, l))
  ]
  | inr (e, x) ↦
      at_first_full (split q) (build flat empty_child) e (at-build flat q u ∙ x)
        (λ p m ms s. above e x p m ms s)
      ∙ sym x
]
  where
    above :
        (e : FileEntry)
        → look q flat ≡ some e
        → (p : List Name) (m : Name) (ms : List Name) → split q ≡ p ++ m ∷ ms
        → at p (build flat empty_child) ≡ none
    above e x p m ms s = elim (Option-cases (at p (build flat empty_child))) [
      | inl y ↦ y
      | inr (e', y) ↦ absurd (elim (at-build_back flat empty_child p e' u y) [
        | inl (p', s', l) ↦ elim (clear p' q m ms (rw s' s)) [
          | inl z ↦ ground (arith, z, l)
          | inr z ↦ ground (arith, z, x)
        ]
        | inr z ↦ nothing e' p z
      ])
    ]
      where
        nothing : (e' : FileEntry) (p : List Name) → at p empty_child ≡ some e' → ⊥
        nothing e' [] h = unfold at in ground arith
        nothing e' (n ∷ ns) h = let k = at_empty n ns in ground (arith, h, k)
