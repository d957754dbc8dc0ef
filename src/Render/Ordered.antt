-- ===== src/Render/Ordered.antt =====
-- The host writes the pixels of a frame only when the driver has read those of the last one.
use mdb.Base.{
  ℕ, suc, ◌+◌, ◌≡◌, refl, Option, none, some, List, [], ◌∷◌, ◌++◌, if◌then◌else◌, leb, arith, done,
}
use mathlib.Core.Option.{none-ne-some}
use mdb.Render.{
  Call, update, tex_sub_image, fence_sync, delete_sync, waited, swap_buffers, Sync, delete_sync_of,
  WaitAnswer, already_signaled, condition_satisfied, timeout_expired, wait_failed, client_wait,
  buffer_wait,
}

-- What is known of the reads of the driver: all done, some behind the last fence, or none behind
-- a fence of this handle.
pub data Reads : Type 0 where
  finished unfenced : Reads
  fenced : (handle : ℕ) → Reads

-- A wait for a fence ends when all that was called before the fence is done, so that one for a later
-- fence does as well. A write while reads are to come is a race.
abbrev pub track : Reads → Call → Option Reads
track finished (update) = some finished
track unfenced (update) = none
track (fenced h) (update) = none
track r (tex_sub_image w h) = some unfenced
track unfenced (fence_sync h) = some (fenced h)
track (fenced h) (waited h') = if leb h h' then some finished else some (fenced h)
track r _ = some r

abbrev pub tracks : Reads → List Call → Option Reads
tracks r [] = some r
tracks r (c ∷ cs) = elim (track r c) [ none ↦ none | some r' ↦ tracks r' cs ]

pub tracks-append :
    (cs ds : List Call) (r : Reads) {r' : Reads}
    → tracks r cs ≡ some r'
    → tracks r (cs ++ ds) ≡ tracks r' ds
tracks-append [] ds r e = ground (arith, e)
tracks-append (c ∷ cs) ds r {r'} e = go (track r c) (λ q e. tracks-append cs ds q e) e
  where
    go :
        (o : Option Reads)
        → ((q : Reads) → tracks q cs ≡ some r' → tracks q (cs ++ ds) ≡ tracks r' ds)
        → elim o [ none ↦ none | some q ↦ tracks q cs ] ≡ some r'
        → elim o [ none ↦ none | some q ↦ tracks q (cs ++ ds) ] ≡ tracks r' ds
    go none ih e = absurd (none-ne-some _ e)
    go (some q) ih e = ih q e

-- The driver answers a wait in the end.
pub data Settles : List WaitAnswer → Type 0 where
  signaled : {rest : List WaitAnswer} → Settles (already_signaled ∷ rest)
  satisfied : {rest : List WaitAnswer} → Settles (condition_satisfied ∷ rest)
  expired : {rest : List WaitAnswer} → Settles rest → Settles (timeout_expired ∷ rest)
  failed : {rest : List WaitAnswer} → Settles rest → Settles (wait_failed ∷ rest)

client_wait-Settles :
    (h : ℕ) {answers : List WaitAnswer}
    → Settles answers
    → client_wait h answers ≡ done (waited h ∷ [])
unfolding client_wait
client_wait-Settles h signaled = refl
client_wait-Settles h satisfied = refl
client_wait-Settles h (expired s) = client_wait-Settles h s
client_wait-Settles h (failed s) = client_wait-Settles h s

abbrev pub waits_for : Option ℕ → List Call
waits_for none = []
waits_for (some h) = waited h ∷ []

pub buffer_wait-Settles :
    (sync : Sync) {answers : List WaitAnswer}
    → Settles answers
    → buffer_wait sync answers ≡ done (waits_for sync.handle)
unfolding buffer_wait
buffer_wait-Settles sync {answers} s = go sync.handle
  where
    go :
        (h : Option ℕ)
        → elim h [ none ↦ done [] | some h ↦ client_wait h answers ] ≡ done (waits_for h)
    go none = refl
    go (some h) = client_wait-Settles h s

-- Reads that are to come stand behind the fence that is waited for next.
abbrev pub Covered : Reads → Option ℕ → Type 0
Covered finished handle = Unit
Covered unfenced handle = ⊥
Covered (fenced h) handle = handle ≡ some h

pub tracks-waits_for :
    (r : Reads) (handle : Option ℕ) (cs : List Call)
    → Covered r handle
    → tracks r (waits_for handle ++ cs) ≡ tracks finished cs
tracks-waits_for finished none cs c = refl
tracks-waits_for finished (some h) cs c = refl
tracks-waits_for unfenced handle cs c = elim c [ ]
tracks-waits_for (fenced h) none cs c = absurd (none-ne-some _ c)
tracks-waits_for (fenced h) (some h') cs c = ground (arith, c)

-- The fences that are made and deleted, and the one that a variable holds.
abbrev pub fences : List Call → ℕ
fences [] = 0
fences (fence_sync h ∷ cs) = suc (fences cs)
fences (_ ∷ cs) = fences cs

abbrev pub deletes : List Call → ℕ
deletes [] = 0
deletes (delete_sync h ∷ cs) = suc (deletes cs)
deletes (_ ∷ cs) = deletes cs

abbrev pub alive : Option ℕ → ℕ
alive none = 0
alive (some h) = 1

pub fences-append : (cs ds : List Call) → fences (cs ++ ds) ≡ fences cs + fences ds
fences-append [] ds = omega arith
fences-append (fence_sync h ∷ cs) ds = ground (arith, fences-append cs ds)
fences-append (c ∷ cs) ds = ground (arith, fences-append cs ds)

pub deletes-append : (cs ds : List Call) → deletes (cs ++ ds) ≡ deletes cs + deletes ds
deletes-append [] ds = omega arith
deletes-append (delete_sync h ∷ cs) ds = ground (arith, deletes-append cs ds)
deletes-append (c ∷ cs) ds = ground (arith, deletes-append cs ds)

-- The calls of one frame behind its first wait, by the handle at its start and the fences made
-- before.
unfoldable pub shown_calls : Option ℕ → ℕ → ℕ → ℕ → List Call
shown_calls handle made width height =
    update
    ∷ ((delete_sync_of handle ++ (fence_sync made ∷ []))
        ++ ((waited made ∷ [])
            ++ (tex_sub_image width height
                ∷ (((delete_sync made ∷ []) ++ (fence_sync (made + 1) ∷ []))
                    ++ (swap_buffers ∷ [])))))

pub shown_calls-tracks :
    (handle : Option ℕ) (made width height : ℕ)
    → tracks finished (shown_calls handle made width height) ≡ some (fenced (made + 1))
unfolding shown_calls delete_sync_of
shown_calls-tracks none made width height = ground arith
shown_calls-tracks (some h) made width height = ground arith

pub shown_calls-fences :
    (handle : Option ℕ) (made width height : ℕ)
    → fences (shown_calls handle made width height) + alive handle
      ≡ deletes (shown_calls handle made width height) + 1
unfolding shown_calls delete_sync_of
shown_calls-fences none made width height = refl
shown_calls-fences (some h) made width height = refl
