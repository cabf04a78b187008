-- ===== src/RequestLog/History.antt =====
-- internal/admin/requestlog.go: the ring buffer shows the latest requests.
use mathlib.Core.Path.{◌∙◌}
use mathlib.Core.List.{reverse-cons}
use native.Mathlib.Nat.{mod-lt, mod-add-mod}
use aigateway.Prelude.Rings.{slot_first, slot_next, slot_away}
use aigateway.Prelude.{
  ℕ, zero, suc, ◌+◌, ◌-◌, ◌%◌, ◌≤◌, ◌<◌, ◌≡◌, refl, sym, ap, List, [], ◌∷◌, ◌++◌, reverse, arith,
  min, length, take, get_or, ltb, ◌==◌, ◌||◌, if◌then◌else◌, length-set, length-replicate,
  get_or-set_self, get_or-set_ne, take_step,
}
use aigateway.RequestLog.{
  RequestEntry, RequestLog, zero_entry, new_request_log, add, collect, recent,
}

-- The slot of the k-th latest entry.
pub slot : ℕ → RequestLog → ℕ
slot k rl = (rl.pos + rl.max_size - 1 - k) % rl.max_size

-- The buffer holds a history, the latest entry first, as far as it reaches.
pub record Holds (rl : RequestLog) (es : List RequestEntry) : Type 0 where
  pub size_pos : 0 < rl.max_size
  pub sized : length rl.entries ≡ rl.max_size
  pub in_range : rl.pos < rl.max_size
  pub counted : rl.count ≡ min (length es) rl.max_size
  pub shows :
      (k : ℕ) → k < rl.count → get_or rl.entries (slot k rl) zero_entry ≡ get_or es k zero_entry

new_request_log-Holds : (n : ℕ) → Holds (new_request_log n) []
unfolding new_request_log
new_request_log-Holds n = record {
  size_pos = ground arith;
  sized = length-replicate (if n == 0 then 200 else n) zero_entry;
  in_range = ground arith;
  counted = omega arith;
  shows = λ k h. elim h [ ];
}

add-shows :
    (e : RequestEntry) (rl : RequestLog) (es : List RequestEntry)
    → Holds rl es
    → (k : ℕ) → k < (add e rl).count
    → get_or (add e rl).entries (slot k (add e rl)) zero_entry ≡ get_or (e ∷ es) k zero_entry
unfolding add slot
add-shows e rl es h zero lt =
    rw (slot_first rl.pos rl.max_size h.in_range)
      (get_or-set_self rl.entries rl.pos e zero_entry (omega (arith, h.sized, h.in_range)))
add-shows e rl es h (suc k) lt =
    let room : suc k < rl.max_size = ground (arith, h.counted) in
    let same = slot_next rl.pos rl.max_size k h.in_range room in
    let away = slot_away rl.pos rl.max_size k h.in_range room in
    rw same
      (get_or-set_ne rl.entries rl.pos (slot k rl) e zero_entry away ∙ h.shows k (ground arith))

add-Holds :
    (e : RequestEntry) (rl : RequestLog) (es : List RequestEntry)
    → Holds rl es
    → Holds (add e rl) (e ∷ es)
unfolding add
add-Holds e rl es h = record {
  size_pos = h.size_pos;
  sized = length-set rl.entries rl.pos e ∙ h.sized;
  in_range = mod-lt (rl.pos + 1) h.size_pos;
  counted = ground (arith, h.counted);
  shows = add-shows e rl es h;
}

-- The log after a list of requests, the latest first.
unfoldable pub after : List RequestEntry → RequestLog → RequestLog
after [] rl = rl
after (e ∷ es) rl = add e (after es rl)

pub after-Holds : (n : ℕ) (es : List RequestEntry) → Holds (after es (new_request_log n)) es
unfolding after
after-Holds n [] = new_request_log-Holds n
after-Holds n (e ∷ es) = add-Holds e (after es (new_request_log n)) es (after-Holds n es)

-- The loop of `Recent` walks the slots backwards.
collect_slot :
    (pos n total k : ℕ)
    → pos < n
    → k < total
    → total ≤ n
    → ((pos + n - total) % n + (total - 1 - k)) % n ≡ (pos + n - 1 - k) % n
collect_slot pos n total k h hk room =
    let sum : pos + n - total + (total - 1 - k) ≡ pos + n - 1 - k = omega arith in
    mod-add-mod (pos + n - total) n (total - 1 - k) ∙ ap (λ j. j % n) sum

collect-take :
    (rl : RequestLog) (es : List RequestEntry) (total i left : ℕ)
    → Holds rl es
    → total ≤ rl.count
    → i + left ≡ total
    → reverse (collect rl ((rl.pos + rl.max_size - total) % rl.max_size) i left) ≡ take left es
unfolding collect slot
collect-take rl es total i zero h le e = refl
collect-take rl es total i (suc left) h le e =
    let start = (rl.pos + rl.max_size - total) % rl.max_size in
    let index : total - 1 - left ≡ i = omega arith in
    let at : (start + i) % rl.max_size ≡ slot left rl =
      ap (λ j. (start + j) % rl.max_size) (sym index)
      ∙ collect_slot rl.pos rl.max_size total left h.in_range (omega arith)
          (omega (arith, h.counted)) in
    rw (at, h.shows left (omega arith))
      (reverse-cons (get_or es left zero_entry) (collect rl start (i + 1) left)
        ∙ (ap (λ l. l ++ get_or es left zero_entry ∷ [])
              (collect-take rl es total (i + 1) left h le (omega arith))
            ∙ sym (take_step es zero_entry left (omega (arith, h.counted)))))

-- The capacity that is meant: 200 where none is given.
abbrev pub capacity : ℕ → ℕ
capacity n = if n == 0 then 200 else n

pub max_size-after :
    (n : ℕ) (es : List RequestEntry) → (after es (new_request_log n)).max_size ≡ capacity n
unfolding after add new_request_log
max_size-after n [] = refl
max_size-after n (e ∷ es) = max_size-after n es

-- After any requests `Recent n` shows the latest ones, the latest first: as many as were asked
-- for, as were made and as the buffer holds; all that it holds, for `n` = 0.
pub recent_exact :
    (max_size n : ℕ) (es : List RequestEntry)
    → let held = min (length es) (capacity max_size) in
      recent n (after es (new_request_log max_size)) ≡ take (if n == 0 then held else min n held) es
unfolding recent
recent_exact max_size n es =
    let rl = after es (new_request_log max_size) in
    let h = after-Holds max_size es in
    let total : ℕ = if n == 0 || ltb rl.count n then rl.count else n in
    collect-take rl es total 0 total h (ground arith) (omega arith)
    ∙ ap (λ k. take k es) (ground (arith, h.counted, max_size-after max_size es))
