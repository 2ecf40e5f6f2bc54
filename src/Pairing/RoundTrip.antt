-- ===== src/Pairing/RoundTrip.antt =====
-- Service.Issue and then Service.Claim of relay/internal/pairing/pairing.go.
use appunvs.Prelude.{
  ℕ, zero, suc, ◌+◌, ◌%◌, ◌≤◌, ◌<◌, ◌≡◌, refl, sym, ap, Bool, true, false, Option, none, some, List,
  [], ◌∷◌, map, take, ◌==◌, nat_eq, if◌then◌else◌, arith, ◌⊎◌, inl, inr, Bool-cases, length, All,
  find, is_some,
}
use appunvs.Prelude.Int.{ℤ, pos, negsuc}
use appunvs.Pairing.{
  Code, Grant, Body, Reply, Redis, Env, State, Issued, Claimed, max_ttl, alphabet, index, new_code,
  redis_key, clamp_ttl, stamped, answered, drawn, attempts, issue, decoded, claim,
}
use appunvs.Pairing.OneShot.{Documented}

-- Eight symbols of the alphabet.
abbrev IsSymbol : ℕ → Type 0
IsSymbol c = is_some (find (λ x. x == c) alphabet) ≡ true

abbrev pub IsCode : Code → Type 0
IsCode code = (length code ≡ 8) × All IsSymbol code

find-index : (xs : List ℕ) (i : ℕ) → i < length xs → is_some (find (λ x. x == index xs i) xs) ≡ true
unfolding index find
find-index [] i h = absurd (omega arith)
find-index (x ∷ xs) zero h = ground arith
find-index (x ∷ xs) (suc i) h = let rest = find-index xs i (omega arith) in ground (arith, rest)

symbols : (n : ℕ) (src : List ℕ) → All IsSymbol (map (λ b. index alphabet (b % 32)) (take n src))
unfolding take
symbols n [] = tt
symbols zero (b ∷ src) = tt
symbols (suc n) (b ∷ src) = (find-index alphabet (b % 32) (omega arith), symbols n src)

length-take :
    (n : ℕ) (src : List ℕ)
    → n ≤ length src
    → length (map (λ b. index alphabet (b % 32)) (take n src)) ≡ n
unfolding take
length-take n [] h = omega arith
length-take zero (b ∷ src) h = refl
length-take (suc n) (b ∷ src) h = let rest = length-take n src (omega arith) in omega (arith, rest)

clamp_ttl_lem : (ttl : ℤ) → (0 < clamp_ttl ttl) × (clamp_ttl ttl ≤ max_ttl)
unfolding clamp_ttl
clamp_ttl_lem (pos ttl) = (ground arith, ground arith)
clamp_ttl_lem (negsuc _) = (omega arith, omega arith)

-- The grant as it is stored.
abbrev pub filled : Grant → ℕ → Grant
filled g now = if g.issued_at == 0 then stamped g now else g

module _ {R : Type 0} (redis : Redis R) (doc : Documented redis) (env : Env) where
  -- Issued under a code that some draw gave, for the lifetime `ttl`.
  abbrev Holds : Grant → ℕ → Code → ℕ → State R → Type 0
  Holds g ttl code expiry s =
      ((place : ℕ) × (src : List ℕ) × (env.random place ≡ some src) × (code ≡ new_code 8 src))
      × ((place : ℕ) × (expiry ≡ env.clock place + ttl))
      × (doc.held (redis_key code) s.redis ≡ some (Body.grant g))

  abbrev Sound : Grant → ℕ → Issued × State R → Type 0
  Sound g ttl x =
      (code : Code) (expiry : ℕ) (s : State R)
      → x ≡ (Issued.issued code expiry, s)
      → Holds g ttl code expiry s

  drawn-Sound :
      (g : Grant) (ttl : ℕ) (next : State R → Issued × State R) (s : State R) (x : Option (List ℕ))
      → ((s : State R) → Sound g ttl (next s))
      → env.random s.place ≡ x
      → Sound g ttl (drawn redis env g ttl next s x)
  unfolding drawn answered
  drawn-Sound g ttl next s none sound e code expiry s' h = absurd (ground arith)
  drawn-Sound g ttl next s (some src) sound e code expiry s' h =
      reply (redis.set_nx (redis_key (new_code 8 src)) (Body.grant g) ttl s.redis) refl h
    where
      reply :
          (x : Option Bool × R)
          → redis.set_nx (redis_key (new_code 8 src)) (Body.grant g) ttl s.redis ≡ x
          → answered redis env (new_code 8 src) ttl next (s.place + 1) x
            ≡ (Issued.issued code expiry, s')
          → Holds g ttl code expiry s'
      reply (none, r) q k = absurd (ground arith)
      reply (some false, r) q k = sound (record { redis = r; place = s.place + 1 }) code expiry s' k
      reply (some true, r) q k =
          let same : new_code 8 src ≡ code = ground arith in
          let (_, set) =
            doc.set_nx_sets (redis_key (new_code 8 src)) (Body.grant g) ttl s.redis r q in
          let state : r ≡ s'.redis = ground arith in
          let set' = rw state at set in
          ((s.place, src, e, sym same), (s.place + 1, ground arith), rw same at set')

  attempts-Sound :
      (k : ℕ) (g : Grant) (ttl : ℕ) (s : State R) → Sound g ttl (attempts redis env k g ttl s)
  unfolding attempts
  attempts-Sound zero g ttl s code expiry s' h = absurd (ground arith)
  attempts-Sound (suc k) g ttl s code expiry s' h =
      drawn-Sound g ttl (attempts redis env k g ttl) s (env.random s.place) (attempts-Sound k g ttl)
        refl code expiry s' h

  claim-Holds :
      (g : Grant) (ttl : ℕ) (code : Code) (expiry : ℕ) (s : State R)
      → Holds g ttl code expiry s
      → ((claim redis code s).0 ≡ Claimed.claimed g)
        ⊎ ((redis.get_del (redis_key code) s.redis).0 ≡ Reply.failure)
  unfolding claim decoded
  claim-Holds g ttl code expiry s (_, _, held) = look (redis.get_del (redis_key code) s.redis) refl
    where
      look :
          (x : Reply × R)
          → redis.get_del (redis_key code) s.redis ≡ x
          → (decoded x.0 ≡ Claimed.claimed g) ⊎ (x.0 ≡ Reply.failure)
      look (Reply.found b, r) e =
          let (had, _) = doc.get_del_found (redis_key code) b s.redis r e in
          let same : b ≡ Body.grant g = ground (arith, had, held) in
          inl (ap (λ b. decoded (Reply.found b)) same)
      look (Reply.nil, r) e =
          let gone = doc.get_del_nil (redis_key code) s.redis r e in
          absurd (ground (arith, gone, held))
      look (Reply.failure, r) e = inr refl

  issue-Holds :
      (g : Grant) (ttl : ℤ) (code : Code) (expiry : ℕ) (s s' : State R)
      → issue redis env g ttl s ≡ (Issued.issued code expiry, s')
      → Holds (filled g (env.clock s.place)) (clamp_ttl ttl) code expiry s'
  unfolding issue
  issue-Holds g ttl code expiry s s' h = elim (Bool-cases (g.issued_at == 0)) [
    | inl e ↦ rw e (
        attempts-Sound 5 (stamped g (env.clock s.place)) (clamp_ttl ttl)
          (record s { place = s.place + 1 }) code expiry s' (rw e at h))
    | inr e ↦ rw e (attempts-Sound 5 g (clamp_ttl ttl) s code expiry s' (rw e at h))
  ]

  -- A code that Issue answers with, where crypto/rand gives the 16 bytes it is asked for: it has eight
  -- symbols of the alphabet, it expires within 15 minutes of a reading of the clock, and a claim of
  -- it, unless Redis fails, answers with the grant, its time of issue filled in.
  pub claim-issue :
      (g : Grant) (ttl : ℤ) (code : Code) (expiry : ℕ) (s s' : State R)
      → ((place : ℕ) (src : List ℕ) → env.random place ≡ some src → length src ≡ 16)
      → issue redis env g ttl s ≡ (Issued.issued code expiry, s')
      → IsCode code
        × ((place : ℕ) × (env.clock place < expiry) × (expiry ≤ env.clock place + max_ttl))
        × (((claim redis code s').0 ≡ Claimed.claimed (filled g (env.clock s.place)))
            ⊎ ((redis.get_del (redis_key code) s'.redis).0 ≡ Reply.failure))
  unfolding new_code
  claim-issue g ttl code expiry s s' bytes h =
      let holds = issue-Holds g ttl code expiry s s' h in
      let ((place, src, e, same), (when, expires), _) = holds in
      let long = bytes place src e in
      let (positive, capped) = clamp_ttl_lem ttl in
      let is_code : IsCode (new_code 8 src) =
        (length-take 8 src (omega (arith, long)), symbols 8 src) in
      (
        rw same is_code,
        (when, omega (arith, expires, positive), omega (arith, expires, capped)),
        claim-Holds (filled g (env.clock s.place)) (clamp_ttl ttl) code expiry s' holds,
      )
