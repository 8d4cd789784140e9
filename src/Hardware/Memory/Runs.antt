-- ===== src/Hardware/Memory/Runs.antt =====
-- rci/hardware/memory_transport.py: runs of the two endpoints. A call that waits changes nothing
-- and is resumed by a later step, or given up.
use robotic_character_interf.Base.{
  false, subst, if_both, refl, sym, ap, ◌∙◌, ℕ, Bool, Option, some, List, [], ◌∷◌, ◌++◌, String,
  ◌≡◌, arith,
}
use robotic_character_interf.Base.Float.{Float}
use robotic_character_interf.Hardware.{Outcome, done, waits, raised}
use robotic_character_interf.Hardware.Memory.{
  link_of, make_channel, create_memory_transport_pair, is_open, close_channel, resume_read,
  read_bytes, resume_write, write_bytes, commit_write, commit_open, commit_read, endpoint, outgoing,
  incoming, close_transport, Endpoint, open_endpoint, open_transport, write_channel, read_channel,
  Channel, Link, Side, host, device,
}
use robotic_character_interf.Hardware.Memory.Flow.{Flows-read, Flows-write, Flows}
use robotic_character_interf.Base.Lists.{length}

pub data Call : Type 0 where
  opens closes : Side → Call
  writes resumes_write : Side → List ℕ → Call
  reads resumes_read : Side → ℕ → Option Float → Bool → Call

-- The link, and what each side's writes had accepted and its reads were given.
pub record World : Type 0 where
  pub link : Link
  pub host_wrote : List ℕ
  pub device_wrote : List ℕ
  pub host_got : List ℕ
  pub device_got : List ℕ

abbrev with_link : Link → World → World
with_link l w = record {
  link = l;
  host_wrote = w.host_wrote;
  device_wrote = w.device_wrote;
  host_got = w.host_got;
  device_got = w.device_got;
}

abbrev wrote : Side → List ℕ → World → World
wrote host bytes w = record {
  link = w.link;
  host_wrote = w.host_wrote ++ bytes;
  device_wrote = w.device_wrote;
  host_got = w.host_got;
  device_got = w.device_got;
}
wrote device bytes w = record {
  link = w.link;
  host_wrote = w.host_wrote;
  device_wrote = w.device_wrote ++ bytes;
  host_got = w.host_got;
  device_got = w.device_got;
}

abbrev got : Side → List ℕ → World → World
got host bytes w = record {
  link = w.link;
  host_wrote = w.host_wrote;
  device_wrote = w.device_wrote;
  host_got = w.host_got ++ bytes;
  device_got = w.device_got;
}
got device bytes w = record {
  link = w.link;
  host_wrote = w.host_wrote;
  device_wrote = w.device_wrote;
  host_got = w.host_got;
  device_got = w.device_got ++ bytes;
}

abbrev after_open : World → Outcome Link → World
after_open w (done l) = with_link l w
after_open w waits = w
after_open w (raised fault) = w

abbrev after_write : Side → List ℕ → World → Outcome Link → World
after_write s bytes w (done l) = wrote s bytes (with_link l w)
after_write s bytes w waits = w
after_write s bytes w (raised fault) = w

abbrev after_read : Side → World → Outcome (List ℕ × Link) → World
after_read s w (done (bytes, l)) = got s bytes (with_link l w)
after_read s w waits = w
after_read s w (raised fault) = w

abbrev step : Call → World → World
step (opens s) w = after_open w (open_transport s w.link)
step (closes s) w = with_link (close_transport s w.link) w
step (writes s bytes) w = after_write s bytes w (write_bytes s bytes w.link)
step (resumes_write s bytes) w = after_write s bytes w (resume_write s bytes w.link)
step (reads s n t late) w = after_read s w (read_bytes s n t late w.link)
step (resumes_read s n t late) w = after_read s w (resume_read s n t late w.link)

abbrev pub run : List Call → World → World
run [] w = w
run (c ∷ calls) w = run calls (step c w)

abbrev pub start : Link → World
start l = record { link = l; host_wrote = []; device_wrote = []; host_got = []; device_got = [] }

pub record IsFlowing (capacity : ℕ) (w : World) : Type 0 where
  pub to_device : Flows capacity w.link.first w.link.second w.link.forward w.host_wrote w.device_got
  pub to_host : Flows capacity w.link.second w.link.first w.link.backward w.device_wrote w.host_got

Flows-same :
    {capacity : ℕ} {w r w' r' : Endpoint} {c c' : Channel} {accepted returned : List ℕ}
    → Flows capacity w r c accepted returned
    → c'.buffer ≡ c.buffer
    → c'.capacity_bytes ≡ c.capacity_bytes
    → w'.bytes_written ≡ w.bytes_written
    → r'.bytes_read ≡ r.bytes_read
    → Flows capacity w' r' c' accepted returned
Flows-same {returned = returned} f buffer capacity written read = record {
  in_order = f.in_order ∙ ap (λ b. returned ++ b) (sym buffer);
  bounded = omega (arith, ap length buffer, f.bounded);
  same_capacity = capacity ∙ f.same_capacity;
  counted_written = written ∙ f.counted_written;
  counted_read = read ∙ f.counted_read;
}

open_endpoint-counters :
    (e e' : Endpoint)
    → open_endpoint e ≡ done e'
    → (e'.bytes_written ≡ e.bytes_written) × (e'.bytes_read ≡ e.bytes_read)
unfolding open_endpoint
open_endpoint-counters e e' h = (ground arith, ground arith)

committed_open :
    (capacity : ℕ) (s : Side) (w : World) (o : Outcome Endpoint)
    → open_endpoint (endpoint s w.link) ≡ o
    → IsFlowing capacity w
    → IsFlowing capacity (after_open w (commit_open s w.link o))
committed_open capacity host w (done e) h f =
    let (written, read) = open_endpoint-counters w.link.first e h in
    record {
      to_device = Flows-same f.to_device refl refl written refl;
      to_host = Flows-same f.to_host refl refl refl read;
    }
committed_open capacity device w (done e) h f =
    let (written, read) = open_endpoint-counters w.link.second e h in
    record {
      to_device = Flows-same f.to_device refl refl refl read;
      to_host = Flows-same f.to_host refl refl written refl;
    }
committed_open capacity s w waits h f = f
committed_open capacity s w (raised fault) h f = f

committed_write :
    (capacity : ℕ) (s : Side) (bytes : List ℕ) (w : World) (o : Outcome Channel)
    → write_channel bytes (outgoing s w.link) ≡ o
    → IsFlowing capacity w
    → IsFlowing capacity (after_write s bytes w (commit_write s bytes w.link o))
committed_write capacity host bytes w (done c) h f = record {
  to_device = Flows-write bytes c f.to_device h;
  to_host = Flows-same f.to_host refl refl refl refl;
}
committed_write capacity device bytes w (done c) h f = record {
  to_device = Flows-same f.to_device refl refl refl refl;
  to_host = Flows-write bytes c f.to_host h;
}
committed_write capacity s bytes w waits h f = f
committed_write capacity s bytes w (raised fault) h f = f

committed_read :
    (capacity : ℕ) (s : Side) (n : ℕ) (t : Option Float) (late : Bool) (w : World)
    (o : Outcome (List ℕ × Channel))
    → read_channel n t late (incoming s w.link) ≡ o
    → IsFlowing capacity w
    → IsFlowing capacity (after_read s w (commit_read s w.link o))
committed_read capacity host n t late w (done (bytes, c)) h f = record {
  to_device = Flows-same f.to_device refl refl refl refl;
  to_host = Flows-read n t late bytes c f.to_host h;
}
committed_read capacity device n t late w (done (bytes, c)) h f = record {
  to_device = Flows-read n t late bytes c f.to_device h;
  to_host = Flows-same f.to_host refl refl refl refl;
}
committed_read capacity s n t late w waits h f = f
committed_read capacity s n t late w (raised fault) h f = f

closed_both :
    (capacity : ℕ) (s : Side) (w : World)
    → IsFlowing capacity w
    → IsFlowing capacity (with_link (close_transport s w.link) w)
unfolding close_transport close_channel
closed_both capacity host w f =
    if_both (λ l. IsFlowing capacity (with_link l w)) w.link.first.terminally_closed f
      (record {
        to_device = Flows-same f.to_device refl refl refl refl;
        to_host = Flows-same f.to_host refl refl refl refl;
      })
closed_both capacity device w f =
    if_both (λ l. IsFlowing capacity (with_link l w)) w.link.second.terminally_closed f
      (record {
        to_device = Flows-same f.to_device refl refl refl refl;
        to_host = Flows-same f.to_host refl refl refl refl;
      })

resumed_write :
    (capacity : ℕ) (s : Side) (bytes : List ℕ) (w : World)
    → IsFlowing capacity w
    → IsFlowing capacity (after_write s bytes w (resume_write s bytes w.link))
unfolding resume_write
resumed_write capacity s bytes w f =
    committed_write capacity s bytes w (write_channel bytes (outgoing s w.link)) refl f

resumed_read :
    (capacity : ℕ) (s : Side) (n : ℕ) (t : Option Float) (late : Bool) (w : World)
    → IsFlowing capacity w
    → IsFlowing capacity (after_read s w (resume_read s n t late w.link))
unfolding resume_read
resumed_read capacity s n t late w f =
    committed_read capacity s n t late w (read_channel n t late (incoming s w.link)) refl f

step-IsFlowing :
    (capacity : ℕ) (c : Call) (w : World) → IsFlowing capacity w → IsFlowing capacity (step c w)
unfolding open_transport write_bytes read_bytes
step-IsFlowing capacity (opens s) w f =
    committed_open capacity s w (open_endpoint (endpoint s w.link)) refl f
step-IsFlowing capacity (closes s) w f = closed_both capacity s w f
step-IsFlowing capacity (writes s bytes) w f =
    if_both (λ o. IsFlowing capacity (after_write s bytes w o)) (is_open (endpoint s w.link))
      (resumed_write capacity s bytes w f) f
step-IsFlowing capacity (resumes_write s bytes) w f = resumed_write capacity s bytes w f
step-IsFlowing capacity (reads s n t late) w f =
    if_both (λ o. IsFlowing capacity (after_read s w o)) (is_open (endpoint s w.link))
      (resumed_read capacity s n t late w f) f
step-IsFlowing capacity (resumes_read s n t late) w f = resumed_read capacity s n t late w f

run-IsFlowing_from :
    (capacity : ℕ) (calls : List Call) (w : World)
    → IsFlowing capacity w
    → IsFlowing capacity (run calls w)
run-IsFlowing_from capacity [] w f = f
run-IsFlowing_from capacity (c ∷ calls) w f =
    run-IsFlowing_from capacity calls (step c w) (step-IsFlowing capacity c w f)

create_memory_transport_pair-link_of :
    (capacity : ℕ) (first_name second_name : String) (l : Link)
    → create_memory_transport_pair capacity first_name second_name ≡ some l
    → link_of first_name second_name
        (record { capacity_bytes = capacity; buffer = []; closed = false })
      ≡ l
unfolding create_memory_transport_pair make_channel
create_memory_transport_pair-link_of capacity first_name second_name l e = ground arith

empty-Flows :
    {capacity : ℕ} {w r : Endpoint}
    → w.bytes_written ≡ 0
    → r.bytes_read ≡ 0
    → Flows capacity w r (record { capacity_bytes = capacity; buffer = []; closed = false }) [] []
empty-Flows written read = record {
  in_order = refl;
  bounded = omega arith;
  same_capacity = refl;
  counted_written = written;
  counted_read = read;
}

fresh-IsFlowing :
    (capacity : ℕ) (first_name second_name : String) (l : Link)
    → create_memory_transport_pair capacity first_name second_name ≡ some l
    → IsFlowing capacity (start l)
fresh-IsFlowing capacity first_name second_name l e =
    subst (λ m. IsFlowing capacity (start m))
      (create_memory_transport_pair-link_of capacity first_name second_name l e)
      (record { to_device = empty-Flows refl refl; to_host = empty-Flows refl refl })

-- Over any sequence of opens, closes, writes and reads of the two sides of a pair that was created
-- with some capacity, where the waiting calls are resumed or given up at any point: in each
-- direction the bytes that writes had accepted are, in order, those that reads were given and then
-- those in the channel's buffer, the buffer is never longer than the capacity, and the counters of
-- the endpoints are the numbers of bytes accepted and given.
pub run-IsFlowing :
    (capacity : ℕ) (first_name second_name : String) (l : Link) (calls : List Call)
    → create_memory_transport_pair capacity first_name second_name ≡ some l
    → IsFlowing capacity (run calls (start l))
run-IsFlowing capacity first_name second_name l calls e =
    run-IsFlowing_from capacity calls (start l)
      (fresh-IsFlowing capacity first_name second_name l e)
