-- ===== src/Romfs/Dir/Listing.antt =====
-- romfs_readdir lists the entries of the chain but the hidden ones.
use linux_kernel.Prelude.{
  same_text, ℕ, zero, suc, ◌+◌, ◌<◌, ◌≡◌, refl, ◌∙◌, ap, Bool, true, false, List, [], ◌∷◌, ◌++◌,
  append-nil, append_assoc, inl, inr, Option, some, arith, if◌then◌else◌, ◌==◌, leb, length, ◌||◌,
  Bool-cases,
}
use linux_kernel.Prelude.Int.{pos}
use linux_kernel.Romfs.Format.{Dev, bytes, romfh_size, decode, mask}
use linux_kernel.Romfs.Dir.{
  Entry, DirContext, Readdir, finished, entry_of, list_entry, visit, readdir_loop, romfs_readdir,
  next_offset,
}
use linux_kernel.Romfs.Dir.Chain.{Item, Chain, last, entry, visible}

-- A caller of getdents with room for every entry.
abbrev pub roomy : List Entry → Entry → Bool
roomy taken e = true

list_entry_lem :
    (nm : List ℕ) (ctx : DirContext) (o : ℕ) (b : List ℕ) (go : DirContext → ℕ → Option Readdir)
    (x : Bool)
    → list_entry (some x) roomy (record ctx { at = o }) o (decode b) nm go ≡ (
        if x
        then go (record ctx { at = o }) (next_offset (decode b))
        else go
            (record { at = o; emitted = ctx.emitted ++ (entry_of o (decode b) nm ∷ []) })
            (next_offset (decode b)))
list_entry_lem nm ctx o b go true = refl
list_entry_lem nm ctx o b go false = refl

-- One round at an entry that can be read.
visit_entry :
    (dev : Dev) (hidden : List ℕ) (ctx : DirContext) (o j : ℕ) (b nm : List ℕ)
    (go : DirContext → ℕ → Option Readdir)
    → dev.read o romfh_size ≡ bytes b
    → dev.strnlen (o + romfh_size) 127 ≡ pos j
    → dev.read (o + romfh_size) j ≡ bytes nm
    → visit dev (some hidden) roomy ctx o go ≡ (
        if same_text nm hidden
        then go (record ctx { at = o }) (next_offset (decode b))
        else go
            (record { at = o; emitted = ctx.emitted ++ (entry_of o (decode b) nm ∷ []) })
            (next_offset (decode b)))
unfolding visit
visit_entry dev hidden ctx o j b nm go e s r =
    rw (e, visit)
      (rw (s, visit) (rw (r, visit) (list_entry_lem nm ctx o b go (same_text nm hidden))))

finished_assoc :
    (at : ℕ) (xs : List Entry) (x : Entry) (ys : List Entry)
    → some (finished (record { at = at; emitted = (xs ++ (x ∷ [])) ++ ys }))
      ≡ some (finished (record { at = at; emitted = xs ++ (x ∷ ys) }))
finished_assoc at xs x ys =
    ap (λ l. some (finished (record { at = at; emitted = l }))) (append_assoc xs (x ∷ []) ys)

inside : (o m : ℕ) → 0 < o → o < m → (o == 0 || leb m o) ≡ false
inside o m l h = ground arith

-- With more rounds than entries the loop ends, past the image, with the visible entries appended.
readdir_loop_lem :
    (dev : Dev) (hidden : List ℕ) (fuel : ℕ) (ctx : DirContext) {offset : ℕ} {items : List Item}
    → Chain dev offset items
    → length items < fuel
    → readdir_loop dev (some hidden) roomy fuel ctx offset
      ≡ some (finished (record { at = dev.maxsize; emitted = ctx.emitted ++ visible hidden items }))
unfolding readdir_loop visible
readdir_loop_lem dev hidden zero ctx c h = absurd (omega arith)
readdir_loop_lem dev hidden (suc n) ctx (last e) h = rw append-nil (ground arith)
readdir_loop_lem dev hidden (suc n) ctx
      (entry {offset = o} {j = j} {b = b} {name = nm} {items = items} lo hi e s r c) h =
    let go = readdir_loop dev (some hidden) roomy n in
    let skip = record ctx { at = o } in
    let x = entry_of o (decode b) nm in
    let keep : DirContext = record { at = o; emitted = ctx.emitted ++ (x ∷ []) } in
    rw (inside o dev.maxsize lo hi, visit_entry dev hidden ctx o j b nm go e s r)
      (elim (Bool-cases (same_text nm hidden)) [
        | inl t ↦ rw t (readdir_loop_lem dev hidden n skip c (omega arith))
        | inr t ↦ rw t (
            readdir_loop_lem dev hidden n keep c (omega arith)
            ∙ finished_assoc dev.maxsize ctx.emitted x (visible hidden items))
      ])

-- Opened at position 0, a directory whose header can be read and whose entries are a chain from the
-- offset in that header: with more rounds than entries and a caller that takes every entry,
-- romfs_readdir ends, hands over the entries in the order of the chain, all but those that have the
-- name of the parameter hided_file_name, and leaves the position at the end of the image.
pub romfs_readdir_lem :
    (dev : Dev) (hidden : List ℕ) (fuel dir_ino : ℕ) {b : List ℕ} {items : List Item}
    → dev.read (mask dir_ino) romfh_size ≡ bytes b
    → Chain dev (mask (decode b).spec) items
    → length items < fuel
    → romfs_readdir dev (some hidden) roomy fuel dir_ino (record { at = 0; emitted = [] })
      ≡ some (finished (record { at = dev.maxsize; emitted = visible hidden items }))
unfolding romfs_readdir
romfs_readdir_lem dev hidden fuel dir_ino r c h =
    rw r (readdir_loop_lem dev hidden fuel (record { at = 0; emitted = [] }) c h)
