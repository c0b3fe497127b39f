-- ===== src/Ib/Tests.antt =====
-- Runs of the model of src/unet/unet_ib.cc at concrete inputs.
use nccl_exts.Prelude.{
  ℕ, ◌+◌, ◌*◌, ◌≤◌, ◌<◌, ◌≡◌, ◌≢◌, refl, ap, true, false, Bool, List, [], ◌∷◌, Option, none, some,
  arith, get_or, length, replicate, All,
}
use nccl_exts.Prelude.Int.{pos}
use nccl_exts.Prelude.Nccl.{NcclResult, Result, ok, success, Ends}
use nccl_exts.Ib.Verbs.{Wc, Mr, Post, other_opcode}
use nccl_exts.Ib.Request.{Request, blank, send, id_at, get_request}
use nccl_exts.Ib.Request.Alloc.{Allocates, get_request-Allocates}
use nccl_exts.Ib.Comm.{SendFifo, blank_fifo, Base, Params, IsConnected, request_at}
use nccl_exts.Ib.Chunk.{chunk_size}
use nccl_exts.Ib.Chunk.Cover.{total_length, total_length-exact, chunk-lt}
use nccl_exts.Ib.Send.{SendComm, reqs_row, cursors, pack_ids, multi_send}
use nccl_exts.Ib.Send.WrId.{id_at-pack_ids}
use nccl_exts.Ib.Send.Delivery.{IsDelivered, multi_send-IsDelivered}
use nccl_exts.Ib.Isend.{fill_send, isend, returns}
use nccl_exts.Ib.Isend.Events.{posts_on, fill_send-events}
use nccl_exts.Ib.Recv.{RecvComm, Buffer, prepare_fifo}
use nccl_exts.Ib.Rendezvous.{Announces, Searched, take_found, prepare_fifo-Announces, isend-arrived}
use nccl_exts.Ib.Completion.{CompletionQueues, Polled, complete_sends, test}
use nccl_exts.Ib.Completion.Termination.{test-ne-none}
use nccl_exts.Ib.Completion.Accounting.{TookOne, complete_sends_lem}
use nccl_exts.Ib.MrCache.{CachedMr, Cache, reg_mr, search, miss, remove_at}
use nccl_exts.Ib.MrCache.Cover.{Registered, Kept, reg_mr-Covers}

total_length-exact_example : total_length 1000 (chunk_size 1000 3) 3 0 ≡ 1000
total_length-exact_example = total_length-exact 1000 3 (omega arith)

chunk-lt_example : 3 * chunk_size 1000 3 < 1000 + 128 * 3
chunk-lt_example = chunk-lt 1000 3 (omega arith)

id_at-pack_ids_example : id_at (pack_ids 0 (7 ∷ 200 ∷ [])) 1 ≡ get_or (7 ∷ 200 ∷ []) 1 0
id_at-pack_ids_example =
    id_at-pack_ids (7 ∷ 200 ∷ []) 1 (omega arith) (omega arith, (omega arith, tt))

-- A request for `size` bytes that waits for one completion of each device.
abbrev sent : ℕ → Request
sent size = record blank {
  type = send;
  nreqs = 2;
  send_size = size;
  send_data = 4096;
  events = 1 ∷ 1 ∷ [];
}

get_request-Allocates_example : Allocates (sent 9 ∷ blank ∷ []) (get_request (sent 9 ∷ blank ∷ []))
get_request-Allocates_example = get_request-Allocates (sent 9 ∷ blank ∷ [])

abbrev accepting : List Post → Post → NcclResult
accepting before post = success

abbrev split : Params
split = record { split_data_on_qps = true; ar_threshold = pos 8192; async_events = true }

abbrev two_devices : Base
two_devices = record {
  ndevs = 2;
  reqs = sent 1000 ∷ sent 300 ∷ replicate 254 blank;
  qps =
      record { qp = 11; dev_index = 0; rem_dev_idx = 0 }
      ∷ record { qp = 12; dev_index = 1; rem_dev_idx = 1 }
      ∷ [];
  nqps = 2;
  qp_index = 1;
  dev_index = 0;
  ready = 1;
  fatal_errors = 0;
  posted = [];
  recvs = [];
}

two_devices-IsConnected : IsConnected two_devices
two_devices-IsConnected = record {
  has_devices = omega arith;
  few_devices = omega arith;
  has_qps = omega arith;
  in_range = omega arith;
  qps_length = refl;
  reqs_length = refl;
  on_devices = (omega arith, (omega arith, tt));
}

-- An element for a buffer at `addr`, as the receiver announces it in its message `idx`.
abbrev element : ℕ → ℕ → ℕ → SendFifo
element addr tag idx = record {
  addr = addr;
  size = pos 2000;
  rkeys = 5 ∷ 6 ∷ [];
  nreqs = 2;
  tag = tag;
  idx = idx;
}

abbrev sender : SendComm
sender = record {
  base = two_devices;
  fifo = (element 65536 1 1 ∷ element 131072 2 1 ∷ []) ∷ [];
  fifo_reqs = replicate 8 none ∷ [];
  sizes = (0 ∷ 0 ∷ []) ∷ [];
  sizes_addr = 512;
  sizes_lkeys = 1 ∷ 2 ∷ [];
  rem_sizes_addr = 1024;
  rem_sizes_rkeys = 3 ∷ 4 ∷ [];
  fifo_head = 0;
  ar = false;
  peer_rank = pos 3;
  stat = none;
}

multi_send-IsDelivered_example :
    Ends
      (λ _. IsDelivered accepting (λ _ _. refl) split 0 (0 ∷ 1 ∷ []) sender)
      (λ _ _. ⊥)
      (multi_send accepting split 0 (0 ∷ 1 ∷ []) sender)
unfolding cursors
multi_send-IsDelivered_example =
    multi_send-IsDelivered accepting (λ _ _. refl) split 0 (0 ∷ 1 ∷ []) sender
      two_devices-IsConnected
      (omega arith, ((λ e. absurd (omega (arith, e))), tt), (omega arith, tt, tt))
      (
        record { offset = refl; addr_fits = omega arith; remote_fits = omega arith },
        (record { offset = refl; addr_fits = omega arith; remote_fits = omega arith }, tt),
      )
      (omega arith)

abbrev keys : List Mr
keys = record { lkey = 21; rkey = 22 } ∷ record { lkey = 23; rkey = 24 } ∷ []

fill_send-events_example :
    get_or (fill_send split sender 2 1000 4096 keys blank).events 1 0 ≡ posts_on 2 0 1 two_devices
fill_send-events_example =
    fill_send-events split sender 2 1000 4096 1 keys blank refl (omega arith) (omega arith)
      (omega arith)

abbrev two_buffers : List Buffer
two_buffers =
    record { addr = 65536; size = pos 2000; tag = 1; mrs = keys }
    ∷ record { addr = 131072; size = pos 2000; tag = 2; mrs = keys }
    ∷ []

abbrev blank_row : List SendFifo
blank_row = replicate 8 blank_fifo

abbrev receiver : RecvComm
receiver = record {
  base = two_devices;
  rem_fifo = blank_row ∷ [];
  rem_fifo_addr = 8192;
  elems_addr = 2048;
  fifo_tail = 0;
  fifo_inline = true;
  rem_rkeys = 31 ∷ 32 ∷ [];
  fifo_lkeys = 33 ∷ 34 ∷ [];
  sizes_fifo = (7 ∷ 7 ∷ []) ∷ [];
  flush_enabled = false;
  flush_qps = [];
  flush_sges = [];
  stat = none;
}

prepare_fifo-Announces_example :
    Announces 1 two_buffers (get_or (prepare_fifo 0 0 two_buffers receiver).rem_fifo 0 [])
prepare_fifo-Announces_example =
    prepare_fifo-Announces 0 two_buffers receiver (omega arith) (omega arith)

-- `sender` with the row that `receiver` has announced.
abbrev told : SendComm
told = record sender { fifo = (prepare_fifo 0 0 two_buffers receiver).rem_fifo }

isend-arrived_example :
    (found : Option ℕ) × (Searched two_buffers (reqs_row told 0) 1 0 found
      × (isend accepting split 4096 1000 1 keys told
          ≡ returns (take_found accepting split 2 4096 1000 keys told found)))
isend-arrived_example =
    isend-arrived accepting split 4096 1000 1 keys told (λ e. absurd (omega (arith, e))) two_buffers
      (omega arith) prepare_fifo-Announces_example

-- A poll that takes all of a list of completions.
abbrev poll_all : List Wc → Option (List Wc) × List Wc
poll_all q = (some q, [])

abbrev total : Option (List Wc) × List Wc → ℕ
total (none, q) = length q
total (some wcs, q) = length q + length wcs

poll_all-total :
    (q wcs q' : List Wc) → poll_all q ≡ (some wcs, q') → length q' + length wcs ≤ length q
poll_all-total q wcs q' e =
    let same : 0 + length q ≡ length q' + length wcs = ap total e in omega arith

abbrev listed : CompletionQueues (List Wc)
listed = record {
  poll = λ dev q. poll_all q;
  pending = λ q. length q;
  poll_takes = λ dev q {wcs} {q'} e. poll_all-total q wcs q' e;
}

abbrev waiting : Polled (List Wc)
waiting = record {
  base = two_devices;
  sizes_fifo = [];
  queues =
      record {
        wr_id = pack_ids 0 (0 ∷ 1 ∷ []);
        is_success = true;
        opcode = other_opcode;
        imm_data = 0;
      }
      ∷ [];
  dev_fatal = 0 ∷ 0 ∷ [];
  stat = none;
  sent_to = [];
}

test-ne-none_example : test listed split 0 waiting ≢ none
test-ne-none_example = test-ne-none listed split 0 waiting

abbrev both : List ℕ
both = 0 ∷ 1 ∷ []

complete_sends_lem_example :
    let out = complete_sends 2 0 0 (pack_ids 0 both) waiting in
    (out.0 ≡ ok tt)
    × All (λ (i : ℕ). TookOne 0 (request_at two_devices i) (request_at out.1.base i)) both
    × ((j : ℕ) → All (λ (i : ℕ). i ≢ j) both → request_at out.1.base j ≡ request_at two_devices j)
complete_sends_lem_example =
    complete_sends_lem 0 both waiting (omega arith) refl
      (omega arith, ((λ e. absurd (omega (arith, e))), tt), (omega arith, tt, tt))
      (refl, (refl, tt))

-- A cache of one region of two pages.
abbrev one_region : Cache
one_region = record {
  slots = record { addr = 8192; pages = 2; refs = 1; mr = 77 } ∷ [];
  capacity = 32;
  stat = none;
}

abbrev grows : ℕ → Bool
grows n = true

abbrev registers : ℕ → ℕ → Result ℕ
registers addr size = ok 78

page_fits : 0 < 4096
page_fits = omega arith

reg_mr-Covers_example :
    Ends
      (Registered 4096 page_fits 12000 300)
      (Kept 4096 page_fits one_region)
      (reg_mr 4096 grows registers 12000 300 one_region)
reg_mr-Covers_example = reg_mr-Covers 4096 page_fits grows registers 12000 300 one_region (refl, tt)

-- Three regions in the order of their addresses.
abbrev three_regions : List CachedMr
three_regions =
    record { addr = 4096; pages = 1; refs = 1; mr = 1 }
    ∷ record { addr = 8192; pages = 1; refs = 1; mr = 2 }
    ∷ record { addr = 12288; pages = 1; refs = 1; mr = 3 }
    ∷ []

-- When the first of them is given back, the last one takes its place, and the search for the second
-- one stops in front of it.
search-after-remove_at : search 4096 8192 1 (remove_at 0 three_regions) ≡ miss 0
unfolding search remove_at
search-after-remove_at = refl
