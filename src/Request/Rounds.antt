-- ===== src/Request/Rounds.antt =====
-- The loop of `processRequest` in src/RequestProcessor.cpp ends.
use yamemcached.Base.{
  ◌<◌, arith, subst, ℕ, suc, ◌≡◌, refl, sym, ◌∙◌, Outcome, ok, abort, fault, spin, ◌>>=◌, ap,
  Option, none, some, Bool, true, false, ltb, length, if◌then◌else◌,
}
use yamemcached.Request.Info.{
  ParsingState, parsing_header, parsing_data, ready_state, done_state, RequestInfo, reset,
}
use yamemcached.Request.Matcher.{Matcher}
use yamemcached.Request.Store.{Store}
use yamemcached.Request.Header.{parse_memcached_header}
use yamemcached.Request.Process.{
  Request, Step, returns, continues, step, step_data, step_header, step_ready, header_done,
  run_request, run_command, rounds, process_request,
}

-- How many states a request has yet to go through.
abbrev pub rank : ParsingState → ℕ
rank done_state = 3
rank ready_state = 2
rank parsing_header = 1
rank parsing_data = 0

module _ {S : Type 0} where
  -- What returns, or goes on with a request of which `P` holds.
  data Next (P : Request S → Type 0) : Outcome (Step S) → Type 0 where
    returned : (b : Bool) (q : Request S) → Next P (ok (returns b q))
    went : (q : Request S) → P q → Next P (ok (continues q))
    aborted : Next P abort
    faulted : Next P fault
    spun : Next P spin

  -- Two ways to go on that agree on these.
  Next-agree :
      {A : Type 0} {P : Request S → Type 0} {m : Outcome (Step S)}
      → Next P m
      → (f g : Step S → Outcome A)
      → ((b : Bool) (q : Request S) → f (returns b q) ≡ g (returns b q))
      → ((q : Request S) → P q → f (continues q) ≡ g (continues q))
      → (m >>= f) ≡ (m >>= g)
  Next-agree (returned b q) f g same on = same b q
  Next-agree (went q p) f g same on = on q p
  Next-agree aborted f g same on = refl
  Next-agree faulted f g same on = refl
  Next-agree spun f g same on = refl

  any_step : (m : Outcome (Step S)) → Next (λ _. Unit) m
  any_step (ok (returns b q)) = returned b q
  any_step (ok (continues q)) = went q tt
  any_step abort = aborted
  any_step fault = faulted
  any_step spin = spun

  module _ {P : Request S → Type 0} where
    Next-if :
        (c : Bool) {m n : Outcome (Step S)} → Next P m → Next P n → Next P (if c then m else n)
    Next-if true r r' = r
    Next-if false r r' = r'

    Next-bind :
        {A : Type 0} (m : Outcome A) (f : A → Outcome (Step S))
        → ((a : A) → Next P (f a))
        → Next P (m >>= f)
    Next-bind (ok a) f r = r a
    Next-bind abort f r = aborted
    Next-bind fault f r = faulted
    Next-bind spin f r = spun

  abbrev In : ParsingState → Request S → Type 0
  In st q = q.info.state ≡ st

module _ {S : Type 0} (store : Store S) (thread : ℕ) (junk : ℕ → ℕ) (matcher : Matcher)
    (buf : ℕ → ℕ) (in_bytes : ℕ) where
  -- The rounds after a step, and those from a state on.
  go_on : ℕ → Step S → Outcome (Bool × Request S)
  go_on n (returns b q) = ok (b, q)
  go_on n (continues q) = rounds store thread junk n matcher buf in_bytes q

  from_state : ℕ → Request S → ParsingState → Outcome (Bool × Request S)
  from_state n q st = step store thread junk matcher buf in_bytes q st >>= go_on n

  rounds-from_state :
      (n : ℕ) (q : Request S)
      → rounds store thread junk (suc n) matcher buf in_bytes q ≡ from_state n q q.info.state
  unfolding rounds from_state go_on
  rounds-from_state n q =
      Next-agree (any_step (step store thread junk matcher buf in_bytes q q.info.state)) _ _
        (λ b q'. refl) (λ q' p. refl)

  go_on-state :
      (n n' : ℕ) (st : ParsingState)
      → ((q : Request S) → from_state n q st ≡ from_state n' q st)
      → (q : Request S) → In st q
      → go_on (suc n) (continues q) ≡ go_on (suc n') (continues q)
  unfolding go_on
  go_on-state n n' st same q at =
      rounds-from_state n q
      ∙ ap (from_state n q) at
      ∙ same q
      ∙ ap (from_state n' q) (sym at)
      ∙ sym (rounds-from_state n' q)

  from_data : (n : ℕ) (q : Request S) → from_state n q parsing_data ≡ from_state 0 q parsing_data
  unfolding from_state step step_data run_request go_on
  from_data n q =
      let ends : Next (λ _. ⊥) (step_data store thread junk buf in_bytes q) =
        Next-if _
          (Next-if _ aborted (
            Next-bind (run_command store thread junk buf q.info q.info.request_type q.store q.out) _
              (λ r. Next-if (ltb (length r.0.bytes) r.0.size) (returned _ _) faulted)))
          (returned _ _) in
      Next-agree ends _ _ (λ b q'. refl) (λ q' no. elim no [ ])

  from_header :
      (n : ℕ) (q : Request S) → from_state (suc n) q parsing_header ≡ from_state 1 q parsing_header
  unfolding from_state step step_header header_done go_on
  from_header n q =
      let next : Next (In parsing_data) (step_header matcher buf in_bytes q) =
        Next-if _
          (Next-bind (parse_memcached_header matcher buf q.cursor.in_buffer_offset in_bytes q.info)
            _ (λ r. parsed r.0 r.1))
          (returned _ _) in
      Next-agree next _ _ (λ b q'. refl) (go_on-state n 0 parsing_data (from_data n))
    where
      parsed :
          (e : Option ℕ) (info : RequestInfo)
          → Next (In parsing_data) (elim e [
            | none ↦ ok (returns false (record q { info = info }))
            | some end ↦ ok (continues (header_done q info end))
          ])
      parsed none info = returned _ _
      parsed (some end) info = went _ refl

  from_ready :
      (n : ℕ) (q : Request S) → from_state (suc (suc n)) q ready_state ≡ from_state 2 q ready_state
  unfolding from_state step step_ready go_on
  from_ready n q = go_on-state (suc n) 1 parsing_header (from_header n) (step_ready q) refl

  from_done :
      (n : ℕ) (q : Request S)
      → from_state (suc (suc (suc n))) q done_state ≡ from_state 3 q done_state
  unfolding from_state step go_on
  from_done n q =
      go_on-state (suc (suc n)) 2 ready_state (from_ready n) (record q { info = reset q.info }) refl

  from_any :
      (n : ℕ) (q : Request S) (st : ParsingState)
      → from_state (suc (suc (suc n))) q st ≡ from_state 3 q st
  from_any n q ready_state = from_ready (suc n) q ∙ sym (from_ready 1 q)
  from_any n q parsing_header = from_header (suc (suc n)) q ∙ sym (from_header 2 q)
  from_any n q parsing_data = from_data (suc (suc (suc n))) q ∙ sym (from_data 3 q)
  from_any n q done_state = from_done n q

  -- From any request, more than four rounds of the loop of processRequest give what four give.
  pub process_request-rounds :
      (n : ℕ) (q : Request S)
      → rounds store thread junk (suc (suc (suc (suc n)))) matcher buf in_bytes q
        ≡ process_request store thread junk matcher buf in_bytes q
  unfolding process_request
  process_request-rounds n q =
      rounds-from_state (suc (suc (suc n))) q
      ∙ from_any n q q.info.state
      ∙ sym (rounds-from_state 3 q)

  next_of : Request S → Outcome (Step S) → Request S
  next_of d (ok (continues q)) = q
  next_of d (ok (returns b q)) = d
  next_of d abort = d
  next_of d fault = d
  next_of d spin = d

  continues-injective : {q q' : Request S} → ok (continues q) ≡ ok (continues q') → q ≡ q'
  unfolding next_of
  continues-injective {q} e = ap (next_of q) e

  Next-went :
      {P : Request S → Type 0} {m : Outcome (Step S)} (q : Request S)
      → Next P m
      → m ≡ ok (continues q)
      → P q
  Next-went {P} q (returned b q') e = cc
  Next-went {P} q (went q' p) e = subst P (continues-injective e) p
  Next-went {P} q aborted e = cc
  Next-went {P} q faulted e = cc
  Next-went {P} q spun e = cc

  step-Next :
      (q : Request S) (st : ParsingState)
      → Next (λ q'. rank q'.info.state < rank st) (step store thread junk matcher buf in_bytes q st)
  unfolding step step_ready step_header step_data run_request header_done
  step-Next q ready_state = went _ (omega arith)
  step-Next q done_state = went _ (omega arith)
  step-Next q parsing_header =
      Next-if _
        (Next-bind (parse_memcached_header matcher buf q.cursor.in_buffer_offset in_bytes q.info) _
          (λ r. parsed r.0 r.1))
        (returned _ _)
    where
      parsed :
          (e : Option ℕ) (info : RequestInfo)
          → Next
              (λ q'. rank q'.info.state < 1)
              (elim e [
                | none ↦ ok (returns false (record q { info = info }))
                | some end ↦ ok (continues (header_done q info end))
              ])
      parsed none info = returned _ _
      parsed (some end) info = went _ (omega arith)
  step-Next q parsing_data =
      Next-if _
        (Next-if _ aborted (
          Next-bind (run_command store thread junk buf q.info q.info.request_type q.store q.out) _
            (λ r. Next-if (ltb (length r.0.bytes) r.0.size) (returned _ _) faulted)))
        (returned _ _)

  -- A round of processRequest that does not return leaves a request with fewer states to go
  -- through, of which there are at most three behind the first, so the loop ends within four
  -- rounds.
  pub step-rank :
      (q q' : Request S)
      → step store thread junk matcher buf in_bytes q q.info.state ≡ ok (continues q')
      → rank q'.info.state < rank q.info.state
  step-rank q q' e = Next-went q' (step-Next q q.info.state) e
