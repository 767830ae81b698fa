-- ===== src/Daemon/Batch/Order.antt =====
-- The turns of the workers and the responses of a batch.
use go_posix.Base.{
  ℕ, zero, suc, ◌≡◌, ◌≢◌, refl, ap, subst, ◌∙◌, Option, none, some, List, [], ◌∷◌, map, ◌⊎◌, inl,
  inr, Bytes, get_elem?, set, length, replicate, length-map, arith, ◌<◌, get_elem?-set_self,
  get_elem?-set_ne, length-set, length-replicate, ◌==◌, Bool-cases,
}
use go_posix.Daemon.Rpc.{Request, Response, Env}
use go_posix.Daemon.Server.{Server, process_request}
use go_posix.Daemon.Server.Replies.{reply_id, process_request-reply_id}
use go_posix.Daemon.Batch.{Turn, put, work_on, work, work_all, compact, handle_batch}

-- The id in a slot of the array, `some none` for nil.
abbrev slot : List (Option Response) → ℕ → Option (Option Bytes)
slot results i = get_elem? (map reply_id results) i

-- A turn for the request at the index.
abbrev pub Visits : List Turn → ℕ → Type 0
Visits [] i = ⊥
Visits (t ∷ ts) i = (t.index ≡ i) ⊎ Visits ts i

map-set :
    (results : List (Option Response)) (i : ℕ) (r : Option Response)
    → map reply_id (set results i r) ≡ set (map reply_id results) i (reply_id r)
map-set [] i r = refl
map-set (x ∷ xs) zero r = refl
map-set (x ∷ xs) (suc i) r = ap (λ ys. reply_id x ∷ ys) (map-set xs i r)

length-put :
    (results : List (Option Response)) (i : ℕ) (r : Option Response)
    → length (put results i r) ≡ length results
unfolding put
length-put results i none = refl
length-put results i (some r) = length-set results i (some r)

slot-put_ne :
    (results : List (Option Response)) (i j : ℕ) (r : Option Response)
    → i ≢ j
    → slot (put results i r) j ≡ slot results j
unfolding put
slot-put_ne results i j none h = refl
slot-put_ne results i j (some r) h =
    ap (λ xs. get_elem? xs j) (map-set results i (some r))
    ∙ get_elem?-set_ne (map reply_id results) (some r.id) h

slot-put_self :
    (results : List (Option Response)) (i : ℕ) (r : Option Response)
    → i < length results
    → (slot results i ≡ some none) ⊎ (slot results i ≡ some (reply_id r))
    → slot (put results i r) i ≡ some (reply_id r)
unfolding put
slot-put_self results i none h (inl e) = e
slot-put_self results i none h (inr e) = e
slot-put_self results i (some r) h _ =
    ap (λ xs. get_elem? xs i) (map-set results i (some r))
    ∙ get_elem?-set_self (map reply_id results) i (some r.id) (rw (length-map results reply_id) h)

get_elem?-lt {ℓ} :
    {A : Type ℓ} (xs : List A) (i : ℕ) (x : A) → get_elem? xs i ≡ some x → i < length xs
get_elem?-lt [] i x h = cc
get_elem?-lt (y ∷ ys) zero x h = omega arith
get_elem?-lt (y ∷ ys) (suc i) x h = omega (arith, get_elem?-lt ys i x h)

either : {A B C : Type 0} → (A × B) ⊎ C → A ⊎ C
either (inl (a, b)) = inl a
either (inr c) = inr c

-- A slot that a turn leaves alone still waits for its turn, or still has its id.
still :
    {x y : Option (Option Bytes)} {id : Option Bytes} (t : Turn) (ts : List Turn) (i : ℕ)
    → y ≡ x
    → ((x ≡ some none) × Visits (t ∷ ts) i) ⊎ (x ≡ some id)
    → t.index ≢ i
    → ((y ≡ some none) × Visits ts i) ⊎ (y ≡ some id)
still t ts i p (inl (e, inl here)) h = absurd (h here)
still t ts i p (inl (e, inr later)) h = inl (p ∙ e, later)
still t ts i p (inr e) h = inr (p ∙ e)

module _ (env : Env) where
  length-work_on :
      (t : Turn) (srv : Server) (results : List (Option Response)) (o : Option Request)
      → length (work_on env t (srv, results) o).1 ≡ length results
  unfolding work_on
  length-work_on t srv results none = refl
  length-work_on t srv results (some req) =
      length-put results t.index (process_request env srv req t.now t.new_id).1

  -- A turn leaves the slots of the other requests alone.
  slot-work_on_ne :
      (t : Turn) (srv : Server) (results : List (Option Response)) (o : Option Request) (i : ℕ)
      → t.index ≢ i
      → slot (work_on env t (srv, results) o).1 i ≡ slot results i
  unfolding work_on
  slot-work_on_ne t srv results none i h = refl
  slot-work_on_ne t srv results (some req) i h =
      slot-put_ne results t.index i (process_request env srv req t.now t.new_id).1 h

  -- A turn puts the id of its request in its slot.
  slot-work_on_self :
      (t : Turn) (srv : Server) (results : List (Option Response)) (r : Request)
      → t.index < length results
      → (slot results t.index ≡ some none) ⊎ (slot results t.index ≡ some r.id)
      → slot (work_on env t (srv, results) (some r)).1 t.index ≡ some r.id
  unfolding work_on
  slot-work_on_self t srv results r h before =
      let e = process_request-reply_id env srv r t.now t.new_id in
      slot-put_self results t.index (process_request env srv r t.now t.new_id).1 h (rw e before)
      ∙ ap some e

  module _ (reqs : List Request) where
    slot-work_at :
        (t : Turn) (srv : Server) (results : List (Option Response)) (i : ℕ) (r : Request)
        → t.index ≡ i
        → get_elem? reqs i ≡ some r
        → i < length results
        → (slot results i ≡ some none) ⊎ (slot results i ≡ some r.id)
        → slot (work env reqs t (srv, results)).1 i ≡ some r.id
    unfolding work
    slot-work_at t srv results i r p =
        subst
          (λ (j : ℕ).
            get_elem? reqs j ≡ some r
            → j < length results
            → (slot results j ≡ some none) ⊎ (slot results j ≡ some r.id)
            → slot (work env reqs t (srv, results)).1 j ≡ some r.id)
          p (λ e lt before. rw e (slot-work_on_self t srv results r lt before))

    work_all-slot :
        (ts : List Turn) (srv : Server) (results : List (Option Response)) (i : ℕ) (r : Request)
        → get_elem? reqs i ≡ some r
        → length results ≡ length reqs
        → ((slot results i ≡ some none) × Visits ts i) ⊎ (slot results i ≡ some r.id)
        → slot (work_all env reqs ts (srv, results)).1 i ≡ some r.id
    unfolding work_all work
    work_all-slot [] srv results i r e len (inl (h, v)) = absurd v
    work_all-slot [] srv results i r e len (inr h) = h
    work_all-slot (t ∷ ts) srv results i r e len before =
        let next = work_on env t (srv, results) (get_elem? reqs t.index) in
        let len' = length-work_on t srv results (get_elem? reqs t.index) ∙ len in
        work_all-slot ts next.0 next.1 i r e len' (elim (Bool-cases (t.index == i)) [
          | inl same ↦ inr (
              slot-work_at t srv results i r (ground arith) e (rw len (get_elem?-lt reqs i r e))
                (either before))
          | inr differ ↦
              let keep =
                slot-work_on_ne t srv results (get_elem? reqs t.index) i (λ s. ground arith) in
              still t ts i keep before (λ s. ground arith)
        ])

get_elem?-replicate {ℓ} :
    {A : Type ℓ} (n i : ℕ) (a : A) → i < n → get_elem? (replicate n a) i ≡ some a
get_elem?-replicate zero i a h = absurd (omega arith)
get_elem?-replicate (suc n) zero a h = refl
get_elem?-replicate (suc n) (suc i) a h = get_elem?-replicate n i a (omega arith)

map-replicate : (n : ℕ) → map reply_id (replicate n none) ≡ replicate n none
map-replicate zero = refl
map-replicate (suc n) = ap (λ xs. none ∷ xs) (map-replicate n)

-- Lists of one length are equal where they have the same elements.
same_elements {ℓ κ} :
    {A : Type ℓ} {B : Type κ} (f : A → B) (xs : List A) (ys : List B)
    → length ys ≡ length xs
    → ((i : ℕ) (x : A) → get_elem? xs i ≡ some x → get_elem? ys i ≡ some (f x))
    → ys ≡ map f xs
same_elements f [] [] h k = refl
same_elements f [] (y ∷ ys) h k = absurd (ground arith)
same_elements f (x ∷ xs) [] h k = absurd (ground arith)
same_elements f (x ∷ xs) (y ∷ ys) h k =
    let head = k zero x refl in
    let tail = same_elements f xs ys (omega arith) (λ i z e. k (suc i) z e) in
    ground (arith, head, tail)

compact-ids :
    (rs : List (Option Response)) → map (λ r. r.id) (compact rs) ≡ compact (map reply_id rs)
unfolding compact
compact-ids [] = refl
compact-ids (none ∷ rs) = compact-ids rs
compact-ids (some r ∷ rs) = ap (λ xs. r.id ∷ xs) (compact-ids rs)

length-work_all :
    (env : Env) (reqs : List Request) (ts : List Turn) (srv : Server)
    (results : List (Option Response))
    → length (work_all env reqs ts (srv, results)).1 ≡ length results
unfolding work_all work
length-work_all env reqs [] srv results = refl
length-work_all env reqs (t ∷ ts) srv results =
    let next = work_on env t (srv, results) (get_elem? reqs t.index) in
    length-work_all env reqs ts next.0 next.1
    ∙ length-work_on env t srv results (get_elem? reqs t.index)

-- In whatever order the workers come to their requests, the responses of a batch are those to the
-- requests with an id, in the order of the requests: a notification gets none. The condition is that
-- every request has its turn.
pub handle_batch-ids :
    (env : Env) (srv : Server) (reqs : List Request) (turns : List Turn)
    → ((i : ℕ) → i < length reqs → Visits turns i)
    → map (λ r. r.id) (handle_batch env srv reqs turns).1 ≡ compact (map (λ r. r.id) reqs)
unfolding handle_batch
handle_batch-ids env srv reqs turns all =
    let results = replicate (length reqs) none in
    let len = length-replicate (length reqs) none in
    let end = (work_all env reqs turns (srv, results)).1 in
    compact-ids end
    ∙ ap compact (
        same_elements (λ (r : Request). r.id) reqs (map reply_id end)
          (length-map end reply_id ∙ length-work_all env reqs turns srv results ∙ len)
          (λ i r e.
            let lt = get_elem?-lt reqs i r e in
            work_all-slot env reqs turns srv results i r e len (
              inl (
                ap (λ xs. get_elem? xs i) (map-replicate (length reqs))
                    ∙ get_elem?-replicate (length reqs) i none lt,
                all i lt,
              ))))
