-- ===== src/Messaging/Delivery/Stored.antt =====
-- What the table holds after the writes of any trace: of each key, the first event that was written.
use mathlib.Core.List.{Memᴰ}
use ingestkit.Prelude.{
  ◌≡◌, refl, sym, ap, ◌∙◌, inl, inr, Bool-cases, Option-cases, ◌++◌, ◌||◌, ◌⊎◌, ◌↔◌, true, Option,
  none, some, List, [], ◌∷◌, Bytes, bytes_eq_iff, Result, ok, arith,
}
use ingestkit.Event.{Envelope}
use ingestkit.Messaging.Records.{KafkaRecord}
use ingestkit.Messaging.World.{
  Effect, wrote, committed, quarantined, notified, observed_write, observed_retry,
  allowed_rebalance,
}
use ingestkit.Messaging.Process.Durable.{Durable, stored, set_aside, earlier}
use ingestkit.Messaging.Delivery.{Key, key_of, key_eq, first, InsertsNew, Lost, written, table}

abbrev pub or_else : Option Envelope → Option Envelope → Option Envelope
or_else none o = o
or_else (some e) o = some e

pub first-append :
    (k : Key) (es fs : List Envelope) → first k (es ++ fs) ≡ or_else (first k es) (first k fs)
unfolding first
first-append k [] fs = refl
first-append k (e ∷ es) fs = ground (arith, first-append k es fs)

pub key_eq_iff : (k l : Key) → (key_eq k l ≡ true) ↔ (k ≡ l)
unfolding key_eq
key_eq_iff (t, i) (u, j) = ground (arith, bytes_eq_iff t u)

-- An event of a list has a first event with its key.
first-Mem :
    (e : Envelope) (es : List Envelope)
    → Memᴰ e es
    → (f : Envelope) × (first (key_of e) es ≡ some f)
unfolding first
first-Mem e [] m = elim m [ ]
first-Mem e (x ∷ es) (Memᴰ.head p) =
    let q : key_eq (key_of x) (key_of e) ≡ true =
      (key_eq_iff (key_of x) (key_of e)).1 (ap key_of (sym p)) in
    (x, rw q refl)
first-Mem e (x ∷ es) (Memᴰ.tail m) =
    let (f, q) = first-Mem e es m in
    elim (Bool-cases (key_eq (key_of x) (key_of e))) [
      | inl p ↦ (x, rw p refl)
      | inr p ↦ (f, rw p q)
    ]

-- The first event with a key has that key.
first-key_of : (k : Key) (es : List Envelope) (f : Envelope) → first k es ≡ some f → key_of f ≡ k
unfolding first
first-key_of k [] f h = absurd (ground arith)
first-key_of k (e ∷ es) f h = elim (Bool-cases (key_eq (key_of e) k)) [
  | inl p ↦ let same : e ≡ f = ground arith in ap key_of (sym same) ∙ (key_eq_iff (key_of e) k).0 p
  | inr p ↦ first-key_of k es f (ground arith)
]

pub first-append_some :
    (k : Key) (es fs : List Envelope) (f : Envelope)
    → first k es ≡ some f
    → first k (es ++ fs) ≡ some f
first-append_some k es fs f h = rw (first-append k es fs, h) refl

first-append_right :
    (k : Key) (es fs : List Envelope) (f : Envelope)
    → first k fs ≡ some f
    → (g : Envelope) × (first k (es ++ fs) ≡ some g)
first-append_right k es fs f h = elim (Option-cases (first k es)) [
  | inl n ↦ (f, rw (first-append k es fs, n, h) refl)
  | inr (g, p) ↦ (g, first-append_some k es fs g p)
]

module _ (lost : Lost) where
  first-written :
      (k : Key) (f : Envelope) (x : Effect) (h : List Effect)
      → first k (written lost h) ≡ some f
      → first k (written lost (x ∷ h)) ≡ some f
  unfolding written
  first-written k f (wrote es b) h e = elim (Bool-cases (b || lost.writes h)) [
    | inl p ↦ rw p (first-append_some k (written lost h) es f e)
    | inr p ↦ rw p e
  ]
  first-written k f (committed rs b) h e = e
  first-written k f (quarantined r b) h e = e
  first-written k f (notified kind r b) h e = e
  first-written k f (observed_write es) h e = e
  first-written k f observed_retry h e = e
  first-written k f allowed_rebalance h e = e

  module _ {T : Type 0} (find : Key → T → Option Envelope) (insert_rows : List Envelope → T → T)
      (empty : T) (new : InsertsNew find insert_rows)
      (none_yet : (k : Key) → find k empty ≡ none) where
    after_insert :
        (k : Key) (es : List Envelope) (t : T) (o : Option Envelope)
        → find k t ≡ o
        → find k (insert_rows es t) ≡ or_else o (first k es)
    after_insert k es t none e = new.added k es t e
    after_insert k es t (some f) e = new.kept k es t f e

    -- Whatever is written, again and again, the table has of each key the first event that was
    -- written, and no other.
    pub find-table :
        (h : List Effect) (k : Key)
        → find k (table lost insert_rows empty h) ≡ first k (written lost h)
    unfolding table written first
    find-table [] k = none_yet k
    find-table (wrote es b ∷ h) k = elim (Bool-cases (b || lost.writes h)) [
      | inr p ↦ rw p (find-table h k)
      | inl p ↦ rw (p, first-append) (after_insert k es _ _ (find-table h k))
    ]
    find-table (committed rs b ∷ h) k = find-table h k
    find-table (quarantined r b ∷ h) k = find-table h k
    find-table (notified kind r b ∷ h) k = find-table h k
    find-table (observed_write es ∷ h) k = find-table h k
    find-table (observed_retry ∷ h) k = find-table h k
    find-table (allowed_rebalance ∷ h) k = find-table h k

    module _ {E : Type 0} (decode : Bytes → Result E Envelope) where
      -- A record is delivered: the table has a row with the key of its event, or it stands in the
      -- quarantine.
      pub data Delivered (h : List Effect) (r : KafkaRecord) : Type 0 where
        in_table :
            {e f : Envelope}
            → decode r.value ≡ ok e
            → find (key_of e) (table lost insert_rows empty h) ≡ some f
            → key_of f ≡ key_of e
            → Delivered h r
        in_quarantine : Memᴰ (quarantined r true) h → Delivered h r

      abbrev Written : List Effect → KafkaRecord → Type 0
      Written h r =
          ((e : Envelope) × (f : Envelope) × (decode r.value ≡ ok e)
            × (first (key_of e) (written lost h) ≡ some f))
          ⊎ Memᴰ (quarantined r true) h

      Durable-Written : (h : List Effect) (r : KafkaRecord) → Durable decode r h → Written h r
      unfolding written
      Durable-Written [] r d = elim d [ ]
      Durable-Written (wrote es true ∷ h) r (stored {e = e} d m) =
          let (f, p) = first-Mem e es m in
          let (g, q) = first-append_right (key_of e) (written lost h) es f p in inl (e, g, d, q)
      Durable-Written (x ∷ h) r set_aside = inr (Memᴰ.head refl)
      Durable-Written (x ∷ h) r (earlier d) = elim (Durable-Written h r d) [
        | inl (e, f, p, q) ↦ inl (e, f, p, first-written (key_of e) f x h q)
        | inr m ↦ inr (Memᴰ.tail m)
      ]

      -- What is safe to commit is delivered.
      pub Durable-Delivered :
          (h : List Effect) (r : KafkaRecord) → Durable decode r h → Delivered h r
      Durable-Delivered h r d = elim (Durable-Written h r d) [
        | inl (e, f, p, q) ↦
            in_table p (find-table h (key_of e) ∙ q) (first-key_of (key_of e) (written lost h) f q)
        | inr m ↦ in_quarantine m
      ]
