-- ===== src/Queue/Single/Bounded.antt =====
-- The channels of a QueueSingle keep the order of what is sent, and at most ten of it.
use mrvacommander.Prelude.{
  ◌<◌, ◌≤◌, ℤ, List, [], ◌∷◌, ◌++◌, length, length-append, ◌≡◌, refl, sym, ◌∙◌, ap, arith, true,
}
use mathlib.Core.List.{append_assoc, append-nil}
use mrvacommander.Queue.Types.{AnalyzeJob, AnalyzeResult}
use mrvacommander.Queue.Single.{
  Chan, through, send, receive, receive_from, panics, close_chan, close, value, Use, sent, received,
  shut, Uses, none_yet, more, QueueSingle, new_queue_single,
}

record Ordered {A : Type 0} (c : Chan A) (ins outs : List A) (d : Chan A) : Type 0 where
  order : c.buffer ++ ins ≡ outs ++ d.buffer
  room : length d.buffer ≤ d.capacity
  same : d.capacity ≡ c.capacity

send_through :
    {A : Type 0} (c d : Chan A) (a : A)
    → send c a ≡ through d
    → (d.buffer ≡ c.buffer ++ a ∷ []) × (length c.buffer < c.capacity) × (d.capacity ≡ c.capacity)
unfolding send
send_through c d a e = (ground arith, ground arith, ground arith)

receive_through :
    {A : Type 0} (c d : Chan A) (buffer : List A) (a : A)
    → receive_from c buffer ≡ through (d, value a)
    → (buffer ≡ a ∷ d.buffer) × (d.capacity ≡ c.capacity)
receive_through c d [] a e = (ground arith, ground arith)
receive_through c d (b ∷ rest) a e = (ground arith, ground arith)

close_through :
    {A : Type 0} (c d : Chan A)
    → close_chan c ≡ through d
    → (d.buffer ≡ c.buffer) × (d.capacity ≡ c.capacity) × (d.is_closed ≡ true)
unfolding close_chan
close_through c d e = (ground arith, ground arith, ground arith)

Use-Ordered :
    {A : Type 0} {c d : Chan A} {ins outs : List A}
    → Use A c ins outs d
    → length c.buffer ≤ c.capacity
    → Ordered c ins outs d
unfolding receive
Use-Ordered (sent {c = c} {d = d} a e) h =
    let (grown, room, same) = send_through c d a e in
    record {
      order = sym grown;
      room = omega (arith, ap length grown, length-append c.buffer (a ∷ []));
      same = same;
    }
Use-Ordered (received {c = c} {d = d} a e) h =
    let (taken, same) = receive_through c d c.buffer a e in
    record {
      order = append-nil c.buffer ∙ taken;
      room = omega (arith, ap length taken);
      same = same;
    }
Use-Ordered (shut {c = c} {d = d} e) h =
    let (kept, same, now) = close_through c d e in
    record {
      order = append-nil c.buffer ∙ sym kept;
      room = omega (arith, ap length kept);
      same = same;
    }

Uses-Ordered :
    {A : Type 0} {c d : Chan A} {ins outs : List A}
    → length c.buffer ≤ c.capacity
    → Uses A c ins outs d
    → Ordered c ins outs d
Uses-Ordered {c = c} h none_yet = record { order = append-nil c.buffer; room = h; same = refl }
Uses-Ordered {A} {c = c} {d = d} h
      (more {d = m} {ins = ins'} {outs = outs'} {i = i} {o = o} uses last) =
    let before = Uses-Ordered h uses in
    let now = Use-Ordered last before.room in
    record {
      order =
          sym (append_assoc c.buffer ins' i)
          ∙ ap (λ (l : List A). l ++ i) before.order
          ∙ append_assoc outs' m.buffer i
          ∙ ap (λ (l : List A). outs' ++ l) now.order
          ∙ sym (append_assoc outs' o d.buffer);
      room = now.room;
      same = now.same ∙ before.same;
    }

send_on_closed : {A : Type 0} (c : Chan A) (a : A) → c.is_closed ≡ true → send c a ≡ panics
unfolding send
send_on_closed c a shut_already = ground arith

-- Whatever is done with the job channel of a QueueSingle: jobs are received in the order in which
-- they were sent, none is lost or doubled, and at most ten wait.
pub jobs_ordered :
    (workers : ℤ) (ins outs : List AnalyzeJob) (d : Chan AnalyzeJob)
    → Uses AnalyzeJob (new_queue_single workers).jobs ins outs d
    → (ins ≡ outs ++ d.buffer) × (length d.buffer ≤ 10)
unfolding new_queue_single
jobs_ordered workers ins outs d uses =
    let o = Uses-Ordered (omega arith) uses in (o.order, omega (arith, o.room, o.same))

-- Once a queue is closed, a send on either channel panics, and so does a second close; what waits
-- can still be received.
pub close_lem :
    (q q' : QueueSingle) (job : AnalyzeJob) (result : AnalyzeResult)
    → close q ≡ through q'
    → (send q'.jobs job ≡ panics)
      × (send q'.results result ≡ panics)
      × (close q' ≡ panics)
      × (q'.jobs.buffer ≡ q.jobs.buffer)
      × (q'.results.buffer ≡ q.results.buffer)
unfolding close close_chan send
close_lem q q' job result e = (ground arith, ground arith, ground arith, ground arith, ground arith)
