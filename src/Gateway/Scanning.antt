-- ===== src/Gateway/Scanning.antt =====
-- internal/gateway/handler.go: what the loop of `handleStream` lets through.
use mathlib.Core.List.{append_assoc, append-nil}
use aigateway.Prelude.{
  ◌≡◌, refl, sym, subst, ap, ◌⊎◌, inl, inr, ℕ, ◌+◌, ◌<◌, Option, none, some, List, [], ◌∷◌, ◌++◌,
  arith, length, length-append, leb, Bool-cases, Option-cases,
}
use aigateway.Float.{Float64}
use aigateway.Policy.{Violation, Engine, check_output}
use aigateway.Gateway.{Service}
use aigateway.Gateway.Streaming.{Written, piece, refusal, check_interval, blocking, relay}

-- Reads that return nothing are not written.
unfoldable pub pieces : List (List ℕ) → List Written
pieces [] = []
pieces ([] ∷ reads) = pieces reads
pieces ((b ∷ bs) ∷ reads) = piece (b ∷ bs) ∷ pieces reads

unfoldable pub joined : List (List ℕ) → List ℕ
joined [] = []
joined (bs ∷ reads) = bs ++ joined reads

module _ {fl : Float64} {C : Type 0} (svc : Service fl C) where
  -- With no policy a stream passes whole.
  relay-no_policy :
      (reads : List (List ℕ)) (acc : List ℕ) (n : ℕ)
      → relay svc none reads acc n ≡ (pieces reads, none)
  unfolding relay pieces
  relay-no_policy [] acc n = refl
  relay-no_policy ([] ∷ reads) acc n = relay-no_policy reads acc n
  relay-no_policy ((b ∷ bs) ∷ reads) acc n = ground (arith, relay-no_policy reads acc n)

  module _ (engine : Engine) where
    -- A stream that is too short to reach the next check passes whole, whatever the policy finds.
    pub relay-unscanned :
        (reads : List (List ℕ)) (acc : List ℕ) (n : ℕ)
        → n + length (joined reads) < check_interval
        → relay svc (some engine) reads acc n ≡ (pieces reads, none)
    unfolding relay pieces joined
    relay-unscanned [] acc n short = refl
    relay-unscanned ([] ∷ reads) acc n short = relay-unscanned reads acc n short
    relay-unscanned ((b ∷ bs) ∷ reads) acc n short =
        let parts = length-append (b ∷ bs) (joined reads) in
        ground
          (arith, parts, relay-unscanned reads (acc ++ b ∷ bs) (n + length (b ∷ bs)) (omega arith))

    -- A stream that was cut off after a part that the output policy blocks.
    pub record IsCut (reads : List (List ℕ)) (acc : List ℕ) (written : List Written)
        (found : Violation) : Type 0 where
      pub before : List (List ℕ)
      pub rest : List (List ℕ)
      pub split : reads ≡ before ++ rest
      pub shown : written ≡ pieces before ++ refusal found.message ∷ []
      pub blocked :
          blocking (check_output svc.text (svc.to_text (acc ++ joined before)) engine) ≡ some found

    pub Relayed : List (List ℕ) → List ℕ → List Written × Option Violation → Type 0
    Relayed reads acc (written, v) =
        ((written ≡ pieces reads) × (v ≡ none))
        ⊎ ((found : Violation) × (v ≡ some found) × IsCut reads acc written found)

    skips :
        (reads : List (List ℕ)) (acc : List ℕ) (p : List Written × Option Violation)
        → Relayed reads acc p
        → Relayed ([] ∷ reads) acc p
    unfolding Relayed pieces joined
    skips reads acc p (inl whole) = inl whole
    skips reads acc p (inr (found, e, cut)) = inr (
      found,
      e,
      record {
        before = [] ∷ cut.before;
        rest = cut.rest;
        split = ap (λ l. [] ∷ l) cut.split;
        shown = cut.shown;
        blocked = cut.blocked;
      },
    )

    extends :
        (b : ℕ) (bs : List ℕ) (reads : List (List ℕ)) (acc : List ℕ) (written : List Written)
        (v : Option Violation)
        → Relayed reads (acc ++ b ∷ bs) (written, v)
        → Relayed ((b ∷ bs) ∷ reads) acc (piece (b ∷ bs) ∷ written, v)
    unfolding Relayed pieces joined
    extends b bs reads acc written v (inl (whole, e)) = inl (ap (λ l. piece (b ∷ bs) ∷ l) whole, e)
    extends b bs reads acc written v (inr (found, e, cut)) = inr (
      found,
      e,
      record {
        before = (b ∷ bs) ∷ cut.before;
        rest = cut.rest;
        split = ap (λ l. (b ∷ bs) ∷ l) cut.split;
        shown = ap (λ l. piece (b ∷ bs) ∷ l) cut.shown;
        blocked =
            subst (λ l. blocking (check_output svc.text (svc.to_text l) engine) ≡ some found)
              (append_assoc acc (b ∷ bs) (joined cut.before)) cut.blocked;
      },
    )

    cut_here :
        (b : ℕ) (bs : List ℕ) (reads : List (List ℕ)) (acc : List ℕ) (found : Violation)
        → blocking (check_output svc.text (svc.to_text (acc ++ b ∷ bs)) engine) ≡ some found
        → Relayed ((b ∷ bs) ∷ reads) acc (piece (b ∷ bs) ∷ refusal found.message ∷ [], some found)
    unfolding Relayed pieces joined
    cut_here b bs reads acc found e = inr (
      found,
      refl,
      record {
        before = (b ∷ bs) ∷ [];
        rest = reads;
        split = refl;
        shown = refl;
        blocked =
            subst
              (λ l. blocking (check_output svc.text (svc.to_text (acc ++ l)) engine) ≡ some found)
              (sym (append-nil (b ∷ bs))) e;
      },
    )

    -- What a client receives of a stream is the whole stream, or a part that ends where the output
    -- policy blocks everything received so far, and then the event with the message of the violation.
    pub relay-Relayed :
        (reads : List (List ℕ)) (acc : List ℕ) (n : ℕ)
        → Relayed reads acc (relay svc (some engine) reads acc n)
    unfolding relay Relayed pieces
    relay-Relayed [] acc n = inl (refl, refl)
    relay-Relayed ([] ∷ reads) acc n = skips reads acc _ (relay-Relayed reads acc n)
    relay-Relayed ((b ∷ bs) ∷ reads) acc n =
        let all = acc ++ b ∷ bs in
        let scanned = n + length (b ∷ bs) in
        let verdict = blocking (check_output svc.text (svc.to_text all) engine) in
        let run = relay svc (some engine) ((b ∷ bs) ∷ reads) acc n in
        let waiting = relay svc (some engine) reads all scanned in
        let restarted = relay svc (some engine) reads all 0 in
        elim (Bool-cases (leb check_interval scanned)) [
          | inr wait ↦
              let goes_on : run ≡ (piece (b ∷ bs) ∷ waiting.0, waiting.1) = ground (arith, wait) in
              subst (Relayed ((b ∷ bs) ∷ reads) acc) (sym goes_on)
                (extends b bs reads acc waiting.0 waiting.1 (relay-Relayed reads all scanned))
          | inl scan ↦ elim (Option-cases verdict) [
            | inl passed ↦
                let goes_on : run ≡ (piece (b ∷ bs) ∷ restarted.0, restarted.1) =
                  ground (arith, scan, passed) in
                subst (Relayed ((b ∷ bs) ∷ reads) acc) (sym goes_on)
                  (extends b bs reads acc restarted.0 restarted.1 (relay-Relayed reads all 0))
            | inr (found, blocks) ↦
                let ends : run ≡ (piece (b ∷ bs) ∷ refusal found.message ∷ [], some found) =
                  ground (arith, scan, blocks) in
                subst (Relayed ((b ∷ bs) ∷ reads) acc) (sym ends)
                  (cut_here b bs reads acc found blocks)
          ]
        ]
