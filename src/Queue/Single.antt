-- ===== src/Queue/Single.antt =====
-- pkg/queue/queue_single.go: two buffered channels, as Go defines these.
pub mod Bounded
use mrvacommander.Prelude.{
  ℕ, ◌<◌, ℤ, Bool, true, false, List, [], ◌∷◌, ◌++◌, length, ltb, if◌then◌else◌, ◌≡◌,
}
use mrvacommander.Queue.Types.{AnalyzeJob, AnalyzeResult}

pub record Chan (A : Type 0) : Type 0 where
  pub capacity : ℕ
  pub buffer : List A
  pub is_closed : Bool

abbrev pub make_chan : {A : Type 0} → ℕ → Chan A
make_chan capacity = record { capacity = capacity; buffer = []; is_closed = false }

-- How an operation on a channel turns out: it goes through, it waits for another goroutine, or it
-- panics.
pub data ChanOp (A : Type 0) : Type 0 where
  through : A → ChanOp A
  blocks panics : ChanOp A

-- `c <- a`
unfoldable pub send : {A : Type 0} → Chan A → A → ChanOp (Chan A)
send c a =
    if c.is_closed
    then panics
    else if ltb (length c.buffer) c.capacity
    then through (record c { buffer = c.buffer ++ a ∷ [] })
    else blocks

-- What `<-c` gives: a value, or the end of a closed channel.
pub data Received (A : Type 0) : Type 0 where
  value : A → Received A
  ended : Received A

abbrev pub receive_from : {A : Type 0} → Chan A → List A → ChanOp (Chan A × Received A)
receive_from c (a ∷ rest) = through (record c { buffer = rest }, value a)
receive_from c [] = if c.is_closed then through (c, ended) else blocks

unfoldable pub receive : {A : Type 0} → Chan A → ChanOp (Chan A × Received A)
receive c = receive_from c c.buffer

-- `close(c)`
unfoldable pub close_chan : {A : Type 0} → Chan A → ChanOp (Chan A)
close_chan c = if c.is_closed then panics else through (record c { is_closed = true })

pub record QueueSingle : Type 0 where
  pub num_workers : ℤ
  pub jobs : Chan AnalyzeJob
  pub results : Chan AnalyzeResult

unfoldable pub new_queue_single : ℤ → QueueSingle
new_queue_single num_workers = record {
  num_workers = num_workers;
  jobs = make_chan 10;
  results = make_chan 10;
}

abbrev close_results :
    QueueSingle → Chan AnalyzeJob → ChanOp (Chan AnalyzeResult) → ChanOp QueueSingle
close_results q jobs (through results) = through (record q { jobs = jobs; results = results })
close_results q jobs blocks = blocks
close_results q jobs panics = panics

abbrev close_both : QueueSingle → ChanOp (Chan AnalyzeJob) → ChanOp QueueSingle
close_both q (through jobs) = close_results q jobs (close_chan q.results)
close_both q blocks = blocks
close_both q panics = panics

unfoldable pub close : QueueSingle → ChanOp QueueSingle
unfolding close_chan
close q = close_both q (close_chan q.jobs)

-- An operation on a channel, by some goroutine.
pub data Use (A : Type 0) : Chan A → List A → List A → Chan A → Type 0 where
  sent : {c d : Chan A} (a : A) → send c a ≡ through d → Use A c (a ∷ []) [] d
  received : {c d : Chan A} (a : A) → receive c ≡ through (d, value a) → Use A c [] (a ∷ []) d
  shut : {c d : Chan A} → close_chan c ≡ through d → Use A c [] [] d

-- Operations in the order in which they go through, with what they have sent and received.
pub data Uses (A : Type 0) (c : Chan A) : List A → List A → Chan A → Type 0 where
  none_yet : Uses A c [] [] c
  more :
      {d e : Chan A} {ins outs i o : List A}
      → Uses A c ins outs d
      → Use A d i o e
      → Uses A c (ins ++ i) (outs ++ o) e
