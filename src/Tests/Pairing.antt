-- ===== src/Tests/Pairing.antt =====
-- Runs of relay/internal/pairing.
use appunvs.Prelude.{
  ℕ, ◌+◌, ◌≤◌, ◌<◌, ◌≡◌, ◌≢◌, refl, sym, ap, ◌∙◌, ◌&&◌, Bool, true, false, Option, none, some, List,
  [], ◌∷◌, ◌==◌, codes_beq, nat_eq, if◌then◌else◌, arith, ◌⊎◌, inl, inr, length, Bool-cases,
}
use appunvs.Prelude.Int.{pos}
use appunvs.Pairing.{
  Code, Grant, Body, Reply, Redis, Env, State, Issued, Claimed, max_ttl, redis_key, issue, claim,
  stamped,
}
use appunvs.Pairing.OneShot.{Documented, Meanwhile, claim_once}
use appunvs.Pairing.RoundTrip.{IsCode, filled, claim-issue}

-- Redis as what its keys hold.
abbrev Keys : Type 0
Keys = List ℕ → Option Body

abbrev put : List ℕ → Option Body → Keys → Keys
put key b r = λ k. if codes_beq k key then b else r k

abbrev set_free : Option Body → List ℕ → Body → Keys → Option Bool × Keys
set_free none key b r = (some true, put key (some b) r)
set_free (some _) key b r = (some false, r)

abbrev reply_of : Option Body → Reply
reply_of none = Reply.nil
reply_of (some b) = Reply.found b

abbrev redis : Redis Keys
redis = record {
  set_nx = λ key b ttl r. set_free (r key) key b r;
  get_del = λ key r. (reply_of (r key), put key none r);
}

beq_refl : (xs : List ℕ) → codes_beq xs xs ≡ true
unfolding codes_beq
beq_refl [] = refl
beq_refl (x ∷ xs) = let rest = beq_refl xs in ground (arith, rest)

beq_sound : (xs ys : List ℕ) → codes_beq xs ys ≡ true → xs ≡ ys
unfolding codes_beq
beq_sound [] [] h = refl
beq_sound [] (y ∷ ys) h = absurd (ground arith)
beq_sound (x ∷ xs) [] h = absurd (ground arith)
beq_sound (x ∷ xs) (y ∷ ys) h =
    let rest = beq_sound xs ys (ground arith) in let same : x ≡ y = ground arith in cc

put_same : (key : List ℕ) (b : Option Body) (r : Keys) → put key b r key ≡ b
put_same key b r = rw (beq_refl key) refl

put_other :
    (key other : List ℕ) (b : Option Body) (r : Keys) → other ≢ key → put key b r other ≡ r other
put_other key other b r n = elim (Bool-cases (codes_beq other key)) [
  | inl e ↦ absurd (n (beq_sound other key e))
  | inr e ↦ ground (arith, e)
]

put_none :
    (key other : List ℕ) (r : Keys)
    → (put key none r other ≡ r other) ⊎ (put key none r other ≡ none)
put_none key other r = elim (Bool-cases (codes_beq other key)) [
  | inl e ↦ inr (ground (arith, e))
  | inr e ↦ inl (ground (arith, e))
]

set_sets :
    (key : List ℕ) (b : Body) (ttl : ℕ) (r r' : Keys)
    → set_free (r key) key b r ≡ (some true, r')
    → (r key ≡ none) × (r' key ≡ some b)
set_sets key b ttl r r' h = go (r key) refl h
  where
    go :
        (x : Option Body)
        → r key ≡ x
        → set_free x key b r ≡ (some true, r')
        → (r key ≡ none) × (r' key ≡ some b)
    go none e k =
        let state : put key (some b) r ≡ r' = ground arith in
        (e, sym (ap (λ (f : Keys). f key) state) ∙ put_same key (some b) r)
    go (some _) e k = absurd (ground arith)

set_other :
    (key other : List ℕ) (b : Body) (r : Keys) (x : Option Body)
    → other ≢ key
    → ((set_free x key b r).1 other ≡ r other) ⊎ ((set_free x key b r).1 other ≡ none)
set_other key other b r none n = inl (put_other key other (some b) r n)
set_other key other b r (some _) n = inl refl

replied : (x : Option Body) {b : Body} → reply_of x ≡ Reply.found b → x ≡ some b
replied none h = absurd (ground arith)
replied (some b) h = ground arith

replied_nil : (x : Option Body) → reply_of x ≡ Reply.nil → x ≡ none
replied_nil none h = refl
replied_nil (some b) h = absurd (ground arith)

get_found :
    (key : List ℕ) (b : Body) (r r' : Keys)
    → redis.get_del key r ≡ (Reply.found b, r')
    → (r key ≡ some b) × (r' key ≡ none)
get_found key b r r' h =
    let state : put key none r ≡ r' = ground arith in
    (
      replied (r key) (ap (λ (x : Reply × Keys). x.0) h),
      sym (ap (λ (f : Keys). f key) state) ∙ put_same key none r,
    )

get_nil : (key : List ℕ) (r r' : Keys) → redis.get_del key r ≡ (Reply.nil, r') → r key ≡ none
get_nil key r r' h = replied_nil (r key) (ap (λ (x : Reply × Keys). x.0) h)

abbrev documented : Documented redis
documented = record {
  held = λ key r. r key;
  set_nx_sets = set_sets;
  set_nx_other = λ key other b ttl r n. set_other key other b r (r key) n;
  get_del_found = get_found;
  get_del_nil = get_nil;
  get_del_keeps = λ key other r. put_none key other r;
}

-- Bytes of crypto/rand that give the code 23456789.
abbrev bytes : List ℕ
bytes = 0 ∷ 1 ∷ 2 ∷ 3 ∷ 4 ∷ 5 ∷ 6 ∷ 7 ∷ 0 ∷ 0 ∷ 0 ∷ 0 ∷ 0 ∷ 0 ∷ 0 ∷ 0 ∷ []

abbrev env : Env
env = record { clock = λ n. 1_767_225_600_000_000_000 + n; random = λ _. some bytes }

abbrev code : Code
code = 50 ∷ 51 ∷ 52 ∷ 53 ∷ 54 ∷ 55 ∷ 56 ∷ 57 ∷ []

abbrev grant : Grant
grant = record { box_id = "box_1"; namespace = "ann"; provider_device_id = "dev"; issued_at = 0 }

abbrev start : State Keys
start = record { redis = λ _. none; place = 0 }

abbrev after : State Keys
after = (issue redis env grant (pos 60_000_000_000) start).1

issue_run :
    issue redis env grant (pos 60_000_000_000) start
    ≡ (Issued.issued code 1_767_225_660_000_000_002, after)
unfolding issue appunvs.Pairing.attempts appunvs.Pairing.drawn appunvs.Pairing.answered
    appunvs.Pairing.new_code appunvs.Pairing.clamp_ttl appunvs.Prelude.take appunvs.Pairing.index
issue_run = refl

bytes_run : (place : ℕ) (src : List ℕ) → env.random place ≡ some src → length src ≡ 16
bytes_run place src h = let same : src ≡ bytes = ground arith in rw same refl

claim-issue_example :
    IsCode code
    × ((place : ℕ) × (env.clock place < 1_767_225_660_000_000_002)
        × (1_767_225_660_000_000_002 ≤ env.clock place + max_ttl))
    × (((claim redis code after).0 ≡ Claimed.claimed (filled grant (env.clock start.place)))
        ⊎ ((redis.get_del (redis_key code) after.redis).0 ≡ Reply.failure))
claim-issue_example =
    claim-issue redis documented env grant (pos 60_000_000_000) code 1_767_225_660_000_000_002 start
      after bytes_run issue_run

abbrev last : State Keys
last = (claim redis code after).1

claim_run : claim redis code after ≡ (Claimed.claimed (stamped grant (env.clock 0)), last)
unfolding claim issue appunvs.Pairing.decoded appunvs.Pairing.attempts appunvs.Pairing.drawn
    appunvs.Pairing.answered codes_beq redis_key appunvs.Pairing.new_code appunvs.Prelude.take
    appunvs.Pairing.index
claim_run = refl

claim_once_example :
    ((claim redis code last).0 ≡ Claimed.not_found) ⊎ ((claim redis code last).0 ≡ Claimed.failed)
claim_once_example =
    claim_once redis documented code (stamped grant (env.clock 0)) after last last claim_run
      (Meanwhile.done last)
