-- ===== src/Core/BlobAllocator.antt =====
-- BlobAllocator on the heap (core/alloc.h): blobs are appended to slabs of 65536 bytes, and a checkpoint
-- remembers the highest slab and its count. The memory that malloc gives for a slab is a parameter.
pub mod Stored
pub mod Rollback
use agentc.Core.Reader.{SlabId}
use agentc.Prelude.{
  ℕ, zero, suc, ◌+◌, ◌-◌, ◌*◌, ◌%◌, Bool, true, false, not, ◌&&◌, ◌||◌, Bytes, List, [], ◌∷◌,
  Option, none, some, length, ltb, leb, ◌==◌, if◌then◌else◌, get_elem?,
}

abbrev pub num_slabs : ℕ
num_slabs = 4096

abbrev pub blob_slab_bytes : ℕ
blob_slab_bytes = 65536

abbrev pub Memory : Type 0
Memory = ℕ → ℕ

pub record BlobSlab : Type 0 where
  pub count : ℕ
  pub bytes : Memory

pub record BlobAllocator : Type 0 where
  pub slabs : ℕ → Option BlobSlab
  pub checkpoint_watermarks : List SlabId
  pub checkpoint_stack : List ℕ

abbrev pub null_id : SlabId
null_id = record { index = 0; offset = 0 }

-- `operator bool`
abbrev pub is_id : SlabId → Bool
is_id sid = not (sid.index == 0) || not (sid.offset == 0)

abbrev pub no_blobs : BlobAllocator
no_blobs = record { slabs = λ _. none; checkpoint_watermarks = []; checkpoint_stack = [] }

abbrev byte_or : Option ℕ → ℕ → ℕ
byte_or none old = old
byte_or (some b) old = b

-- `memcpy(&bytes[at], data, length)`
unfoldable pub copy : ℕ → Bytes → Memory → Memory
copy at contents memory j =
    if ltb j at then memory j else byte_or (get_elem? contents (j - at)) (memory j)

abbrev pub put_slab : ℕ → BlobSlab → (ℕ → Option BlobSlab) → ℕ → Option BlobSlab
put_slab i slab slabs j = if j == i then some slab else slabs j

abbrev pub appended : Bytes → BlobSlab → BlobSlab
appended contents slab = record {
  count = slab.count + length contents;
  bytes = copy slab.count contents slab.bytes;
}

abbrev pub sid_at : ℕ → BlobSlab → SlabId
sid_at i slab = record { index = i; offset = slab.count % 65536 }

abbrev pub fits : Bytes → BlobSlab → Bool
fits contents slab = leb (length contents) (blob_slab_bytes - slab.count)

module _ (fresh : ℕ → Memory) where
  -- `createOwnedSlab` where there is no slab: the first one reserves 0:0
  abbrev pub owned_slab : ℕ → Option BlobSlab → BlobSlab
  owned_slab i (some slab) = slab
  owned_slab i none = record { count = if i == 0 then 1 else 0; bytes = fresh i }

  -- the loop from slab `i`, with so many slabs to come
  unfoldable pub place : ℕ → ℕ → Bytes → (ℕ → Option BlobSlab) → SlabId × (ℕ → Option BlobSlab)
  unfolding copy
  place zero i contents slabs = (null_id, slabs)
  place (suc n) i contents slabs =
      let slab = owned_slab i (slabs i) in
      let rest = place n (suc i) contents (put_slab i slab slabs) in
      if fits contents slab
      then (sid_at i slab, put_slab i (appended contents slab) slabs)
      else rest

  -- `contents` is what is copied: the data, or zeros for a null pointer
  unfoldable pub allocate : Bytes → BlobAllocator → SlabId × BlobAllocator
  unfolding place
  allocate contents blobs =
      if (length contents == 0) || ltb blob_slab_bytes (length contents)
      then (null_id, blobs)
      else (let (sid, slabs) = place num_slabs 0 contents blobs.slabs in
          (sid, record blobs { slabs = slabs }))

  -- one allocation after the other
  abbrev pub allocate_all : List Bytes → BlobAllocator → BlobAllocator
  allocate_all [] blobs = blobs
  allocate_all (c ∷ cs) blobs = allocate_all cs (allocate c blobs).1

-- `getPointer`: the memory of the slab and the offset in it
unfoldable pub get_pointer : SlabId → BlobAllocator → Option (Memory × ℕ)
get_pointer sid blobs =
    if not (is_id sid) || leb num_slabs sid.index
    then none
    else (elim (blobs.slabs sid.index) [ none ↦ none | some s ↦ some (s.bytes, sid.offset) ])

pub record Checkpoint : Type 0 where
  pub depth : ℕ
  pub valid : Bool
  pub watermark : SlabId

-- the loop from slab `n - 1` down to 0
unfoldable pub highest : ℕ → (ℕ → Option BlobSlab) → SlabId
highest zero slabs = null_id
highest (suc i) slabs =
    let rest = highest i slabs in
    elim (slabs i) [ none ↦ rest | some s ↦ record { index = i; offset = s.count % 65536 } ]

-- The top of a stack is its first entry.
unfoldable pub checkpoint : BlobAllocator → Checkpoint × BlobAllocator
unfolding highest
checkpoint blobs =
    let current = highest num_slabs blobs.slabs in
    let watermarks = current ∷ blobs.checkpoint_watermarks in
    let stack = length watermarks ∷ blobs.checkpoint_stack in
    (
      record { depth = length stack; valid = true; watermark = current },
      record blobs { checkpoint_watermarks = watermarks; checkpoint_stack = stack },
    )

abbrev pop_back {ℓ} : {A : Type ℓ} → List A → List A
pop_back [] = []
pop_back (a ∷ more) = more

abbrev pub is_current : Checkpoint → BlobAllocator → Bool
is_current cp blobs =
    cp.valid
    && not (length blobs.checkpoint_stack == 0)
    && (cp.depth == length blobs.checkpoint_stack)

abbrev pub popped : BlobAllocator → BlobAllocator
popped blobs = record blobs {
  checkpoint_watermarks = pop_back blobs.checkpoint_watermarks;
  checkpoint_stack = pop_back blobs.checkpoint_stack;
}

abbrev pub recount : ℕ → Option BlobSlab → Option BlobSlab
recount n none = none
recount n (some slab) = some (record slab { count = n })

-- the slabs above the watermark are emptied, and its own gets its count
abbrev pub cut : SlabId → (ℕ → Option BlobSlab) → ℕ → Option BlobSlab
cut mark slabs i =
    if ltb mark.index i
    then recount 0 (slabs i)
    else if i == mark.index
    then recount mark.offset (slabs i)
    else slabs i

unfoldable pub rollback : Checkpoint → BlobAllocator → Bool × BlobAllocator
rollback cp blobs =
    if is_current cp blobs
    then (true, record (popped blobs) { slabs = cut cp.watermark blobs.slabs })
    else (false, blobs)

unfoldable pub commit : Checkpoint → BlobAllocator → Bool × BlobAllocator
commit cp blobs = if is_current cp blobs then (true, popped blobs) else (false, blobs)

unfoldable pub clear_all_slabs : BlobAllocator → BlobAllocator
clear_all_slabs blobs = no_blobs
