-- ===== src/Server/Channels.antt =====
-- The queues of `waitApplyCh`: what holds of all operations in them, and their numbers.
use kv_raft_storage.Common.{
  ◌<◌, ◌+◌, refl, false, arith, ℕ, subst, List, [], ◌∷◌, ◌++◌, Option, none, some, ◌≡◌, ◌==◌, inl,
  inr, Bool-cases, All, All-append, some_inj,
}
use kv_raft_storage.Server.State.{Op, Channel}
use kv_raft_storage.Server.Apply.{find_channel, set_channel, push}
use kv_raft_storage.Server.Requests.{taken, close_channel, opened, pop_front, find_queue, set_queue}

-- What holds of all operations that are queued.
abbrev pub Queued : (Op → Type 0) → List (ℕ × Channel) → Type 0
Queued P channels = All (λ (c : ℕ × Channel). All P c.1.queue) channels

module _ (P : Op → Type 0) where
  pub find_channel-Queued :
      (index : ℕ) (channels : List (ℕ × Channel)) {queue : Channel}
      → Queued P channels
      → find_channel index channels ≡ some queue
      → All P queue.queue
  unfolding find_channel
  find_channel-Queued index [] q h = absurd (cc)
  find_channel-Queued index (c ∷ channels) {queue} q h = elim (Bool-cases (index == c.0)) [
    | inl here ↦
        let e : c.1 ≡ queue = some_inj (rw here at h) in
        subst (λ (x : Channel). All P x.queue) e q.0
    | inr away ↦ find_channel-Queued index channels q.1 (rw away at h)
  ]

  pub set_channel-Queued :
      (index : ℕ) (queue : List Op) (channels : List (ℕ × Channel))
      → Queued P channels
      → All P queue
      → Queued P (set_channel index queue channels)
  unfolding set_channel
  set_channel-Queued index queue [] q a = tt
  set_channel-Queued index queue (c ∷ channels) q a = elim (Bool-cases (index == c.0)) [
    | inl here ↦ rw here (a, q.1)
    | inr away ↦ rw away (q.0, set_channel-Queued index queue channels q.1 a)
  ]

  pub close_channel-Queued :
      (index : ℕ) (channels : List (ℕ × Channel))
      → Queued P channels
      → Queued P (close_channel index channels)
  unfolding close_channel
  close_channel-Queued index [] q = tt
  close_channel-Queued index (c ∷ channels) q = elim (Bool-cases (index == c.0)) [
    | inl here ↦ rw here q.1
    | inr away ↦ rw away (q.0, close_channel-Queued index channels q.1)
  ]

  pub push-Queued :
      (index : ℕ) (op : Op) (found : Option Channel) (channels : List (ℕ × Channel))
      → Queued P channels
      → find_channel index channels ≡ found
      → P op
      → Queued P (push index op found channels)
  push-Queued index op none channels q h p = q
  push-Queued index op (some c) channels q h p =
      set_channel-Queued index (c.queue ++ op ∷ []) channels q
        (All-append P c.queue (op ∷ []) (find_channel-Queued index channels q h) (p, tt))

  pub opened-Queued :
      (made index : ℕ) (found : Option Channel) (channels : List (ℕ × Channel))
      → Queued P channels
      → Queued P (opened made index found channels)
  opened-Queued made index none channels q = (tt, q)
  opened-Queued made index (some c) channels q = q

  pub find_queue-Queued :
      (id : ℕ) (channels : List (ℕ × Channel)) {queue : List Op}
      → Queued P channels
      → find_queue id channels ≡ some queue
      → All P queue
  unfolding find_queue
  find_queue-Queued id [] q h = absurd (cc)
  find_queue-Queued id (c ∷ channels) {queue} q h = elim (Bool-cases (id == c.1.queue_id)) [
    | inl here ↦ let e : c.1.queue ≡ queue = some_inj (rw here at h) in rw (← e) q.0
    | inr away ↦ find_queue-Queued id channels q.1 (rw away at h)
  ]

  set_queue-Queued :
      (id : ℕ) (queue : List Op) (channels : List (ℕ × Channel))
      → Queued P channels
      → All P queue
      → Queued P (set_queue id queue channels)
  unfolding set_queue
  set_queue-Queued id queue [] q a = tt
  set_queue-Queued id queue (c ∷ channels) q a = elim (Bool-cases (id == c.1.queue_id)) [
    | inl here ↦ rw here (a, q.1)
    | inr away ↦ rw away (q.0, set_queue-Queued id queue channels q.1 a)
  ]

  pub pop-Queued :
      (index id : ℕ) (queue : List Op) (channels : List (ℕ × Channel))
      → Queued P channels
      → All P queue
      → Queued P (close_channel index (pop_front id queue channels).1)
  pop-Queued index id [] channels q a = close_channel-Queued index channels q
  pop-Queued index id (op ∷ queue) channels q a =
      close_channel-Queued index (set_queue id queue channels)
        (set_queue-Queued id queue channels q a.1)

-- The numbers of the queues were given before, as on every server that a run reaches (Reaches-IsFresh in
-- Server/Serving).
abbrev pub IsFresh : ℕ → List (ℕ × Channel) → Type 0
IsFresh made channels = All (λ (c : ℕ × Channel). c.1.queue_id < made) channels

pub IsFresh-find_queue :
    (made : ℕ) (channels : List (ℕ × Channel))
    → IsFresh made channels
    → find_queue made channels ≡ none
unfolding find_queue
IsFresh-find_queue made [] f = refl
IsFresh-find_queue made (c ∷ channels) f =
    let older = f.0 in
    let apart : (made == c.1.queue_id) ≡ false = ground arith in
    rw apart (IsFresh-find_queue made channels f.1)

set_channel-IsFresh :
    (made index : ℕ) (queue : List Op) (channels : List (ℕ × Channel))
    → IsFresh made channels
    → IsFresh made (set_channel index queue channels)
unfolding set_channel
set_channel-IsFresh made index queue [] f = tt
set_channel-IsFresh made index queue (c ∷ channels) f = elim (Bool-cases (index == c.0)) [
  | inl here ↦ rw here f
  | inr away ↦ rw away (f.0, set_channel-IsFresh made index queue channels f.1)
]

pub push-IsFresh :
    (made index : ℕ) (op : Op) (found : Option Channel) (channels : List (ℕ × Channel))
    → IsFresh made channels
    → IsFresh made (push index op found channels)
push-IsFresh made index op none channels f = f
push-IsFresh made index op (some c) channels f =
    set_channel-IsFresh made index (c.queue ++ op ∷ []) channels f

IsFresh-later :
    (made : ℕ) (channels : List (ℕ × Channel)) → IsFresh made channels → IsFresh (made + 1) channels
IsFresh-later made [] f = tt
IsFresh-later made (c ∷ channels) f =
    let older = f.0 in (omega arith, IsFresh-later made channels f.1)

pub opened-IsFresh :
    (made index : ℕ) (found : Option Channel) (channels : List (ℕ × Channel))
    → IsFresh made channels
    → IsFresh (taken made found).1 (opened made index found channels)
opened-IsFresh made index none channels f = (omega arith, IsFresh-later made channels f)
opened-IsFresh made index (some c) channels f = f

close_channel-IsFresh :
    (made index : ℕ) (channels : List (ℕ × Channel))
    → IsFresh made channels
    → IsFresh made (close_channel index channels)
unfolding close_channel
close_channel-IsFresh made index [] f = tt
close_channel-IsFresh made index (c ∷ channels) f = elim (Bool-cases (index == c.0)) [
  | inl here ↦ rw here f.1
  | inr away ↦ rw away (f.0, close_channel-IsFresh made index channels f.1)
]

set_queue-IsFresh :
    (made id : ℕ) (queue : List Op) (channels : List (ℕ × Channel))
    → IsFresh made channels
    → IsFresh made (set_queue id queue channels)
unfolding set_queue
set_queue-IsFresh made id queue [] f = tt
set_queue-IsFresh made id queue (c ∷ channels) f = elim (Bool-cases (id == c.1.queue_id)) [
  | inl here ↦ rw here f
  | inr away ↦ rw away (f.0, set_queue-IsFresh made id queue channels f.1)
]

pub pop-IsFresh :
    (made index id : ℕ) (queue : List Op) (channels : List (ℕ × Channel))
    → IsFresh made channels
    → IsFresh made (close_channel index (pop_front id queue channels).1)
pop-IsFresh made index id [] channels f = close_channel-IsFresh made index channels f
pop-IsFresh made index id (op ∷ queue) channels f =
    close_channel-IsFresh made index (set_queue id queue channels)
      (set_queue-IsFresh made id queue channels f)
