-- ===== src/Failover/Reading.antt =====
-- Reading a stream adds lines of its own sending only.
use five_api.Base.{
  ℕ, ◌≡◌, refl, Bool, true, false, Option, none, some, String, List, [], ◌∷◌, arith, length, Result,
  ok, err, if_both,
}
use five_api.Redis.{Redis}
use five_api.Failover.Errors.{Failure}
use five_api.Failover.Keys.{Provider}
use five_api.Failover.Billing.{Call}
use five_api.Failover.Attempts.{Gateway, Reported}
use five_api.Failover.Outcome.{StreamOutcome, Fed, goes_on, fails, feed, eof_error}
use five_api.Failover.Usage.{sse_billable_text}
use five_api.Failover.Streaming.{
  Chunk, Delivered, Flow, Read, complete, broken, failed, read_chunks, note_usage, first_data,
  deliver, at_end, or_complete, after_yield, metered, fed, delivered_line, at_channel,
}

-- The lines all came from the sending of this number.
abbrev pub AllFrom : ℕ → List Delivered → Type 0
AllFrom n [] = Unit {0}
AllFrom n (line ∷ lines) = (line.0 ≡ n) × AllFrom n lines

module _ (r : Redis) (g : Gateway) where
  -- What the client has got came from the last sending; before the first line it has nothing.
  abbrev pub FromLast : Flow r g → Type 0
  FromLast f =
      AllFrom (length f.desk.sends) f.delivered × (f.data_yielded ≡ false → f.delivered ≡ [])

  abbrev pub ReadsLast : Read r g → Type 0
  ReadsLast (complete f) = FromLast f
  ReadsLast (broken f) = FromLast f
  ReadsLast (failed e f) = FromLast f

  or_complete-ReadsLast :
      (e : Option Failure) (f : Flow r g) → FromLast f → ReadsLast (or_complete r g e f)
  or_complete-ReadsLast none f h = h
  or_complete-ReadsLast (some e) f h = h

  module _ (hangs_up : ℕ → Bool) where
    after_yield-ReadsLast :
        (headers : List (String × String)) (c : Chunk) (o : StreamOutcome) (f : Flow r g)
        (rest : StreamOutcome → Flow r g → Read r g)
        → AllFrom (length f.desk.sends) f.delivered
        → f.data_yielded ≡ true
        → ((o' : StreamOutcome) (f' : Flow r g) → FromLast f' → ReadsLast (rest o' f'))
        → ReadsLast (after_yield r g hangs_up headers c o f rest)
    after_yield-ReadsLast headers c o f rest h y k =
        let next = deliver r g (delivered_line r g o c.line) f in
        let from : FromLast next = ((refl, h), λ n. absurd (ground (arith, y))) in
        if_both ReadsLast (hangs_up (length f.delivered)) (broken next) _ from (
          if_both ReadsLast o.terminal (at_end r g headers o next) (rest o next)
            (or_complete-ReadsLast (eof_error g.texts headers o) next from) (k o next from))

    metered-ReadsLast :
        (headers : List (String × String)) (c : Chunk) (text : Result String String)
        (o : StreamOutcome) (f : Flow r g) (rest : StreamOutcome → Flow r g → Read r g)
        → AllFrom (length f.desk.sends) f.delivered
        → f.data_yielded ≡ true
        → ((o' : StreamOutcome) (f' : Flow r g) → FromLast f' → ReadsLast (rest o' f'))
        → ReadsLast (metered r g hangs_up headers c text o f rest)
    metered-ReadsLast headers c (err e) o f rest h y k = (h, λ n. absurd (ground (arith, y)))
    metered-ReadsLast headers c (ok text) o f rest h y k =
        after_yield-ReadsLast headers c o _ rest h y k

    fed-ReadsLast :
        (headers : List (String × String)) (c : Chunk) (x : Fed) (f : Flow r g)
        (rest : StreamOutcome → Flow r g → Read r g)
        → AllFrom (length f.desk.sends) f.delivered
        → f.data_yielded ≡ true
        → ((o' : StreamOutcome) (f' : Flow r g) → FromLast f' → ReadsLast (rest o' f'))
        → ReadsLast (fed r g hangs_up headers c x f rest)
    fed-ReadsLast headers c (fails e) f rest h y k = (h, λ n. absurd (ground (arith, y)))
    fed-ReadsLast headers c (goes_on o) f rest h y k =
        metered-ReadsLast headers c (sse_billable_text g.texts c.line) o f rest h y k

    -- The first chunk's bookkeeping changes no line.
    abbrev Begins : Flow r g → Type 0
    Begins f = AllFrom (length f.desk.sends) f.delivered × (f.data_yielded ≡ true)

    note_usage-Begins :
        (u : Option Reported) (f : Flow r g) → Begins f → Begins (note_usage r g u f)
    note_usage-Begins none f h = h
    note_usage-Begins (some u) f h = h

    begins :
        (call : Call) (p : Provider) (c : Chunk) (f : Flow r g)
        → AllFrom (length f.desk.sends) f.delivered
        → Begins (note_usage r g c.usage (first_data r g call p f))
    begins call p c f h = note_usage-Begins c.usage (first_data r g call p f) (
      if_both (λ (f' : Flow r g). AllFrom (length f'.desk.sends) f'.delivered) f.data_yielded f
          (record (at_channel r g call p f) { data_yielded = true }) h h,
      ground arith,
    )

    pub read_chunks-ReadsLast :
        (call : Call) (p : Provider) (headers : List (String × String)) (ending : Option Failure)
        (cs : List Chunk) (o : StreamOutcome) (f : Flow r g)
        → FromLast f
        → ReadsLast (read_chunks r g hangs_up call p headers ending cs o f)
    unfolding read_chunks
    read_chunks-ReadsLast call p headers (some e) [] o f h = h
    read_chunks-ReadsLast call p headers none [] o f h = or_complete-ReadsLast _ f h
    read_chunks-ReadsLast call p headers (some e) (c ∷ cs) o f h =
        let b = begins call p c f h.0 in
        fed-ReadsLast headers c (feed g.texts c.line headers o) _ _ b.0 b.1
          (λ o' f' h'. read_chunks-ReadsLast call p headers (some e) cs o' f' h')
    read_chunks-ReadsLast call p headers none (c ∷ cs) o f h =
        let b = begins call p c f h.0 in
        fed-ReadsLast headers c (feed g.texts c.line headers o) _ _ b.0 b.1
          (λ o' f' h'. read_chunks-ReadsLast call p headers none cs o' f' h')
