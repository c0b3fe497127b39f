-- ===== src/Ib/Async/Tally.antt =====
-- The fatal errors that the thread for asynchronous events in src/unet/unet_ib.cc counts.
use nccl_exts.Prelude.{
  ℕ, ◌+◌, ◌%◌, ◌^◌, ◌<◌, ◌≡◌, refl, not, List, [], ◌∷◌, ◌==◌, if◌then◌else◌, arith, get_or, length,
  Bool-cases, inl, inr, get_or-set_self, get_or-set_ne, length-set, ==_iff, ap, ◌∙◌,
}
use nccl_exts.Prelude.Words.{inc32}
use nccl_exts.Ib.Async.{
  EventType, device_fatal, srq_err, not_fatal, cq_err, qp_fatal, qp_req_err, qp_access_err, Event,
  FatalCounts, count_comm, handle_event, async_thread_main,
}

-- The events that the thread gets to: it stops in front of one without a text, and behind one that it
-- cannot acknowledge.
abbrev pub reached : List Event → List EventType
reached [] = []
reached (e ∷ events) =
    let rest = reached events in
    if not e.has_text then [] else if e.acked then e.type ∷ rest else e.type ∷ []

-- An event is fatal for the device, and for comm c.
abbrev pub for_dev : EventType → ℕ
for_dev device_fatal = 1
for_dev _ = 0

abbrev pub for_comm : ℕ → EventType → ℕ
for_comm c (cq_err d) = if c == d then 1 else 0
for_comm c (qp_fatal d) = if c == d then 1 else 0
for_comm c (qp_req_err d) = if c == d then 1 else 0
for_comm c (qp_access_err d) = if c == d then 1 else 0
for_comm c _ = 0

abbrev pub tally : (EventType → ℕ) → List EventType → ℕ
tally f [] = 0
tally f (t ∷ ts) = f t + tally f ts

-- The counts after the events `ts`, modulo the counters' width.
pub record IsTallied (ts : List EventType) (s t : FatalCounts) : Type 0 where
  pub dev_count : t.dev % 2 ^ 32 ≡ (s.dev + tally for_dev ts) % 2 ^ 32
  pub comm_count :
      (c : ℕ)
      → c < length s.comms
      → get_or t.comms c 0 % 2 ^ 32 ≡ (get_or s.comms c 0 + tally (for_comm c) ts) % 2 ^ 32
  pub same_comms : length t.comms ≡ length s.comms

count_comm-get :
    (c d : ℕ) (s : FatalCounts)
    → c < length s.comms
    → get_or (count_comm d s).comms c 0 % 2 ^ 32
      ≡ (get_or s.comms c 0 + (if c == d then 1 else 0)) % 2 ^ 32
count_comm-get c d s l = elim (Bool-cases (c == d)) [
  | inl t ↦
      let same : c ≡ d = (==_iff c d).0 t in
      let written = get_or-set_self s.comms d (inc32 (get_or s.comms d 0)) 0 (rw same at l) in
      rw (t, same) (omega (arith, written))
  | inr f ↦
      let old =
        get_or-set_ne s.comms d c (inc32 (get_or s.comms d 0)) 0
          (λ e. absurd (ground (arith, e, f))) in
      rw f (omega (arith, old))
]

count_comm-IsTallied :
    (t : EventType) (d : ℕ) (s : FatalCounts)
    → for_dev t ≡ 0
    → ((c : ℕ) → for_comm c t ≡ (if c == d then 1 else 0))
    → IsTallied (t ∷ []) s (count_comm d s)
count_comm-IsTallied t d s e f = record {
  dev_count = omega (arith, e);
  comm_count = λ c l. rw (f c) (count_comm-get c d s l ∙ ap (◌% 2 ^ 32) (omega arith));
  same_comms = length-set s.comms d (inc32 (get_or s.comms d 0));
}

handle_event-IsTallied : (t : EventType) (s : FatalCounts) → IsTallied (t ∷ []) s (handle_event t s)
unfolding handle_event
handle_event-IsTallied device_fatal s = record {
  dev_count = omega arith;
  comm_count = λ c l. omega arith;
  same_comms = refl;
}
handle_event-IsTallied srq_err s = record {
  dev_count = omega arith;
  comm_count = λ c l. omega arith;
  same_comms = refl;
}
handle_event-IsTallied not_fatal s = record {
  dev_count = omega arith;
  comm_count = λ c l. omega arith;
  same_comms = refl;
}
handle_event-IsTallied (cq_err d) s = count_comm-IsTallied (cq_err d) d s refl (λ c. refl)
handle_event-IsTallied (qp_fatal d) s = count_comm-IsTallied (qp_fatal d) d s refl (λ c. refl)
handle_event-IsTallied (qp_req_err d) s = count_comm-IsTallied (qp_req_err d) d s refl (λ c. refl)
handle_event-IsTallied (qp_access_err d) s =
    count_comm-IsTallied (qp_access_err d) d s refl (λ c. refl)

nothing-IsTallied : (s : FatalCounts) → IsTallied [] s s
nothing-IsTallied s = record {
  dev_count = omega arith;
  comm_count = λ c l. omega arith;
  same_comms = refl;
}

later-IsTallied :
    (t : EventType) (ts : List EventType) (s u v : FatalCounts)
    → IsTallied (t ∷ []) s u
    → IsTallied ts u v
    → IsTallied (t ∷ ts) s v
later-IsTallied t ts s u v h k = record {
  dev_count = omega (arith, h.dev_count, k.dev_count);
  comm_count =
      λ c l. omega (arith, h.comm_count c l, k.comm_count c (omega (arith, l, h.same_comms)));
  same_comms = k.same_comms ∙ h.same_comms;
}

-- When the thread for asynchronous events ends, the fatal errors of the device and of each comm
-- have grown, modulo 2 ^ 32, by the number of the events that it reached that are fatal for them.
pub async_thread_main-IsTallied :
    (events : List Event) (s : FatalCounts)
    → IsTallied (reached events) s (async_thread_main events s)
unfolding async_thread_main
async_thread_main-IsTallied [] s = nothing-IsTallied s
async_thread_main-IsTallied (e ∷ events) s =
    let now = handle_event-IsTallied e.type s in
    let handled = handle_event e.type s in
    let rest = async_thread_main-IsTallied events handled in
    elim (Bool-cases e.has_text) [
      | inr f ↦ simp f (nothing-IsTallied s)
      | inl t ↦ elim (Bool-cases e.acked) [
        | inr f ↦ simp (t, f) now
        | inl a ↦
            simp (t, a)
              (later-IsTallied e.type (reached events) s handled (async_thread_main events handled)
                now rest)
      ]
    ]
