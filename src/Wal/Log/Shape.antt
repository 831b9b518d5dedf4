-- ===== src/Wal/Log/Shape.antt =====
-- The abstract log: segments in ascending order, each with its confirmed and its pending records.
use trapd_sensor.Prelude.{
  subst, ◌⊎◌, inl, inr, ℕ, suc, ◌+◌, ◌≤◌, ◌<◌, ◌≡◌, refl, sym, ap, ◌∙◌, List, [], ◌∷◌, ◌++◌,
  append_assoc, append-nil, Bytes, All, length, arith,
}
use trapd_sensor.Wal.Record.{Checksum, record_bytes}
use trapd_sensor.Wal.Segment.{encoded}
use trapd_sensor.Wal.Segment.Recovery.{encoded-append}

pub record Seg : Type 0 where
  pub id : ℕ
  -- The records before the cursor, and those that are still pending.
  pub read : List Bytes
  pub unread : List Bytes

abbrev pub records : Seg → List Bytes
records s = s.read ++ s.unread

abbrev pub ids : List Seg → List ℕ
ids [] = []
ids (s ∷ segs) = s.id ∷ ids segs

-- Ascending numbers, from `n` on.
abbrev pub Ascending : ℕ → List ℕ → Type 0
Ascending n [] = Unit {0}
Ascending n (x ∷ xs) = (n ≤ x) × Ascending (suc x) xs

abbrev pub Chain : ℕ → List Seg → Type 0
Chain n segs = Ascending n (ids segs)

-- What the log has still to hand out, oldest first.
abbrev pub unread_of : List Seg → List Bytes
unread_of [] = []
unread_of (s ∷ segs) = s.unread ++ unread_of segs

abbrev pub last_of : Seg → List Seg → Seg
last_of s [] = s
last_of s (t ∷ segs) = last_of t segs

-- A record goes to the end of the last segment.
abbrev pub push_last : Bytes → Seg → List Seg → Seg × List Seg
push_last p s [] = (record s { unread = s.unread ++ (p ∷ []) }, [])
push_last p s (t ∷ segs) = let (t', segs') = push_last p t segs in (s, t' ∷ segs')

pub unread_of-push_last :
    (p : Bytes) (s : Seg) (segs : List Seg)
    → unread_of ((push_last p s segs).0 ∷ (push_last p s segs).1) ≡ unread_of (s ∷ segs) ++ (p ∷ [])
unread_of-push_last p s [] = simp append-nil
unread_of-push_last p s (t ∷ segs) =
    ap (◌++◌ s.unread) (unread_of-push_last p t segs)
    ∙ sym (append_assoc s.unread (unread_of (t ∷ segs)) (p ∷ []))

pub ids-push_last :
    (p : Bytes) (s : Seg) (segs : List Seg)
    → ids ((push_last p s segs).0 ∷ (push_last p s segs).1) ≡ ids (s ∷ segs)
ids-push_last p s [] = refl
ids-push_last p s (t ∷ segs) = ap (◌∷◌ s.id) (ids-push_last p t segs)

pub ids-append : (xs ys : List Seg) → ids (xs ++ ys) ≡ ids xs ++ ids ys
ids-append [] ys = refl
ids-append (x ∷ xs) ys = ap (◌∷◌ x.id) (ids-append xs ys)

-- All that follows in ascending order is at least the bound.
pub Ascending-least : (m n : ℕ) (ys : List ℕ) → m ≤ n → Ascending n ys → All (λ y. m ≤ y) ys
Ascending-least m n [] h a = tt
Ascending-least m n (y ∷ ys) h a = (omega arith, Ascending-least m (suc y) ys (omega arith) a.1)

pub length-ids : (segs : List Seg) → length (ids segs) ≡ length segs
length-ids [] = refl
length-ids (s ∷ segs) = ap suc (length-ids segs)

pub All-ids : (n : ℕ) (segs : List Seg) → All (λ s. s.id < n) segs → All (λ x. x < n) (ids segs)
All-ids n [] h = tt
All-ids n (s ∷ segs) h = (h.0, All-ids n segs h.1)

pub Chain-weaken : {m n : ℕ} (segs : List Seg) → m ≤ n → Chain n segs → Chain m segs
Chain-weaken [] h ch = tt
Chain-weaken (s ∷ segs) h ch = (omega arith, ch.1)

pub Chain-last :
    (n : ℕ) (s : Seg) (segs : List Seg) → Chain n (s ∷ segs) → s.id ≤ (last_of s segs).id
Chain-last n s [] ch = omega arith
Chain-last n s (t ∷ segs) ch = omega (arith, Chain-last (suc s.id) t segs ch.1)

pub Chain-split :
    (n : ℕ) (done : List Seg) (s : Seg) (rest : List Seg)
    → Chain n (done ++ (s ∷ rest))
    → All (λ d. d.id < s.id) done × Chain n (s ∷ rest)
Chain-split n [] s rest ch = (tt, ch)
Chain-split n (d ∷ done) s rest ch =
    let (below, chain) = Chain-split (suc d.id) done s rest ch.1 in
    ((omega arith, below), Chain-weaken {m = n} {n = suc d.id} (s ∷ rest) (omega arith) chain)

pub below_last :
    (a n : ℕ) (done : List Seg) (cur : Seg) (rest : List Seg)
    → Chain n (done ++ (cur ∷ rest))
    → a ≡ (last_of cur rest).id
    → All (λ d. d.id < a) done
below_last a n [] cur rest ch e = tt
below_last a n (d ∷ done) cur rest ch e =
    let (below, chain) = Chain-split n (d ∷ done) cur rest ch in
    (omega (arith, Chain-last n cur rest chain), below_last a (suc d.id) done cur rest ch.1 e)

pub upto_last :
    (a n : ℕ) (done : List Seg) (cur : Seg) (rest : List Seg)
    → Chain n (done ++ (cur ∷ rest))
    → a ≡ (last_of cur rest).id
    → All (λ x. x < a + 1) (ids (done ++ (cur ∷ rest)))
upto_last a n [] cur [] ch e = (omega arith, tt)
upto_last a n [] cur (t ∷ rest) ch e =
    (omega (arith, Chain-last n cur (t ∷ rest) ch), upto_last a (suc cur.id) [] t rest ch.1 e)
upto_last a n (d ∷ done) cur rest ch e = (
  omega (arith, (below_last a n (d ∷ done) cur rest ch e).0),
  upto_last a (suc d.id) done cur rest ch.1 e,
)

pub Ascending-snoc :
    (n m : ℕ) (xs : List ℕ)
    → Ascending n xs
    → All (λ x. x < m) xs
    → n ≤ m
    → Ascending n (xs ++ (m ∷ []))
Ascending-snoc n m [] a b h = (h, tt)
Ascending-snoc n m (x ∷ xs) a b h = (a.0, Ascending-snoc (suc x) m xs a.1 b.1 b.0)

pub last_of_snoc : (s : Seg) (segs : List Seg) (t : Seg) → last_of s (segs ++ (t ∷ [])) ≡ t
last_of_snoc s [] t = refl
last_of_snoc s (r ∷ segs) t = last_of_snoc r segs t

pub last_of-append :
    (s : Seg) (mids : List Seg) (t : Seg) (later : List Seg)
    → last_of s (mids ++ (t ∷ later)) ≡ last_of t later
last_of-append s [] t later = refl
last_of-append s (m ∷ mids) t later = last_of-append m mids t later

-- A segment of a chain is the first one or stands behind it.
pub split_cases :
    (n : ℕ) (cur : Seg) (rest mids : List Seg) (t : Seg) (later : List Seg)
    → cur ∷ rest ≡ mids ++ (t ∷ later)
    → Chain n (cur ∷ rest)
    → ((mids ≡ []) × (t ≡ cur)) ⊎ (cur.id < t.id)
split_cases n cur rest [] t later e ch = inl (refl, cc)
split_cases n cur rest (m ∷ mids) t later e ch =
    let (below, _) = Chain-split n (m ∷ mids) t later (subst (Chain n) e ch) in
    let first : m ≡ cur = cc in inr (rw (← first) below.0)

pub unread_of-append : (xs ys : List Seg) → unread_of (xs ++ ys) ≡ unread_of xs ++ unread_of ys
unread_of-append [] ys = refl
unread_of-append (x ∷ xs) ys =
    ap (◌++◌ x.unread) (unread_of-append xs ys)
    ∙ sym (append_assoc x.unread (unread_of xs) (unread_of ys))

module _ ⦃c : Checksum⦄ where
  abbrev pub size_of : Seg → ℕ
  size_of s = length (encoded (records s))

  abbrev pub total_size : List Seg → ℕ
  total_size [] = 0
  total_size (s ∷ segs) = size_of s + total_size segs

  pub encoded_snoc :
      (rs : List Bytes) (p : Bytes) → encoded (rs ++ (p ∷ [])) ≡ encoded rs ++ record_bytes p
  encoded_snoc rs p =
      encoded-append rs (p ∷ [])
      ∙ ap (◌++◌ (encoded rs)) (unfold encoded in append-nil (record_bytes p))

  pub total_size-append : (xs ys : List Seg) → total_size (xs ++ ys) ≡ total_size xs + total_size ys
  total_size-append [] ys = omega arith
  total_size-append (x ∷ xs) ys = omega (arith, total_size-append xs ys)
