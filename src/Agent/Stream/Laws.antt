-- ===== src/Agent/Stream/Laws.antt =====
-- What runOne of relay/internal/ai/openai_engine.go makes of a stream.
use Prim.Native.String.{◌++◌ as append}
use text.Mathlib.TextLemmas.{append_assoc, append-nil, nil-append}
use appunvs.Prelude.{
  String, false, sym, map, String-discrete, if◌then◌else◌, ℕ, suc, ◌≡◌, refl, ap, ◌∙◌, true, Option,
  none, some, List, [], ◌∷◌, ◌==◌, string_eq, nat_eq, arith, select, All, Bool-cases, inl, inr,
}
use appunvs.Agent.Stream.{
  Delta, Pending, lookup, no_call, extend, update_at, index_of, take_deltas, assemble_from,
  assemble,
}

-- The deltas of one call, one after the other.
abbrev gather : List Delta → Option Pending → Option Pending
gather [] o = o
gather (d ∷ ds) o = gather ds (some (extend d (elim o [ none ↦ no_call | some p ↦ p ])))

-- The last text of a list that is not empty, or else an empty one.
abbrev pub last_text : List String → String
last_text [] = ""
last_text (s ∷ ss) = let rest = last_text ss in if rest == "" then s else rest

abbrev pub concat : List String → String
concat [] = ""
concat (s ∷ ss) = append s (concat ss)

-- What a stream says of the call at an index: nothing, or the last id and the last name that are not
-- empty and all its arguments, in their order.
abbrev pub said : List Delta → Option Pending
said [] = none
said (d ∷ ds) = some (record {
  id = last_text (map (λ d. d.id) (d ∷ ds));
  name = last_text (map (λ d. d.name) (d ∷ ds));
  args = concat (map (λ d. d.args) (d ∷ ds));
})

abbrev after : Pending → List Delta → Pending
after p ds = record {
  id = last_text (p.id ∷ map (λ d. d.id) ds);
  name = last_text (p.name ∷ map (λ d. d.name) ds);
  args = append p.args (concat (map (λ d. d.args) ds));
}

last_text_step :
    (s t : String) (ss : List String)
    → last_text ((if t == "" then s else t) ∷ ss) ≡ last_text (s ∷ t ∷ ss)
last_text_step s t ss = ground arith

last_text_empty : (ss : List String) → last_text ("" ∷ ss) ≡ last_text ss
last_text_empty ss = ground arith

concat_step :
    (s t rest : String) → append (if t == "" then s else append s t) rest ≡ append s (append t rest)
unfolding String-discrete
concat_step s t rest = elim (String-discrete t "") [
  | yes e ↦ rw e (ap (append s) (sym (nil-append rest)))
  | no n ↦ let cut : (t == "") ≡ false = ground (arith, n) in rw cut (append_assoc s t rest)
]

abbrev call_of : String → String → String → Pending
call_of id name args = record { id = id; name = name; args = args }

pending :
    {a a' b b' c c' : String}
    → (a ≡ a') × (b ≡ b') × (c ≡ c')
    → some (call_of a b c) ≡ some (call_of a' b' c')
pending (p, q, r) = rw (p, q, r) refl

gather-after : (ds : List Delta) (p : Pending) → gather ds (some p) ≡ some (after p ds)
unfolding extend String-discrete
gather-after [] p =
    let none_left = append-nil p.args in
    ap (λ a. some (record { id = p.id; name = p.name; args = a })) (sym none_left)
gather-after (d ∷ ds) p =
    let i = last_text_step p.id d.id (map (λ d. d.id) ds) in
    let n = last_text_step p.name d.name (map (λ d. d.name) ds) in
    let a = concat_step p.args d.args (concat (map (λ d. d.args) ds)) in
    gather-after ds (extend d p) ∙ pending (i, n, a)

lookup-update_at :
    (i j : ℕ) (d : Delta) (m : List (ℕ × Pending))
    → lookup i (update_at j d m) ≡ (
        if j == i
        then some (extend d (elim (lookup i m) [ none ↦ no_call | some p ↦ p ]))
        else lookup i m)
unfolding lookup update_at
lookup-update_at i j d [] = ground arith
lookup-update_at i j d ((k, p) ∷ m) = let rest = lookup-update_at i j d m in ground (arith, rest)

lookup-take_deltas_from :
    (i : ℕ) (ds : List Delta) (m : List (ℕ × Pending))
    → lookup i (take_deltas ds m) ≡ gather (select (λ d. index_of d == i) ds) (lookup i m)
unfolding take_deltas select
lookup-take_deltas_from i [] m = refl
lookup-take_deltas_from i (d ∷ ds) m =
    let rest = lookup-take_deltas_from i ds (update_at (index_of d) d m) in
    elim (Bool-cases (index_of d == i)) [
      | inl h ↦ rw h (rest ∙ ap (gather at_i) (lookup-update_at i (index_of d) d m ∙ rw h refl))
      | inr h ↦ rw h (rest ∙ ap (gather at_i) (lookup-update_at i (index_of d) d m ∙ rw h refl))
    ]
  where
    at_i : List Delta
    at_i = select (λ d. index_of d == i) ds

gather-said : (ds : List Delta) → gather ds none ≡ said ds
unfolding extend
gather-said [] = refl
gather-said (d ∷ ds) =
    let ids = map (λ d. d.id) ds in
    let names = map (λ d. d.name) ds in
    let args = concat (map (λ d. d.args) ds) in
    gather-after ds (extend d no_call)
    ∙ pending (
      last_text_step "" d.id ids ∙ last_text_empty (d.id ∷ ids),
      last_text_step "" d.name names ∙ last_text_empty (d.name ∷ names),
      concat_step "" d.args args ∙ nil-append (append d.args args),
    )

-- However the deltas of several calls are interleaved, what is gathered at an index is what the deltas of
-- that index alone say: nothing if there is none, or else the last id and the last name that are not
-- empty, and all their arguments, one after the other.
pub lookup-take_deltas :
    (i : ℕ) (ds : List Delta)
    → lookup i (take_deltas ds []) ≡ said (select (λ d. index_of d == i) ds)
unfolding lookup
lookup-take_deltas i ds =
    lookup-take_deltas_from i ds [] ∙ gather-said (select (λ d. index_of d == i) ds)

one_index :
    (ds : List Delta) (i : ℕ) (p : Pending)
    → All (λ d. d.index ≡ some (suc i)) ds
    → (q : Pending) × (take_deltas ds ((suc i, p) ∷ []) ≡ (suc i, q) ∷ [])
unfolding take_deltas update_at
one_index [] i p h = (p, refl)
one_index (d ∷ ds) i p (h, hs) =
    let (q, e) = one_index ds i (extend d p) hs in
    let same : (suc i == index_of d) ≡ true = rw h (ground arith) in (q, rw same e)

-- A call that streams alone, at an index other than 0, is lost: no tool call is assembled of its deltas.
pub lost_call :
    (d : Delta) (ds : List Delta) (i : ℕ)
    → d.index ≡ some (suc i)
    → All (λ d. d.index ≡ some (suc i)) ds
    → assemble (take_deltas (d ∷ ds) []) ≡ []
unfolding assemble assemble_from take_deltas update_at lookup extend
lost_call d ds i h hs =
    let (q, e) = one_index ds i (extend d no_call) hs in rw (h, e) (ground arith)
