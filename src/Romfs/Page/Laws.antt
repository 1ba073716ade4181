-- ===== src/Romfs/Page/Laws.antt =====
-- What a page that romfs_readpage fills holds, byte by byte.
use linux_kernel.Prelude.{
  ℕ, zero, suc, ◌+◌, ◌*◌, ◌<◌, ◌≡◌, refl, ap, Bool, true, false, Option, none, some, List, [], ◌∷◌,
  if◌then◌else◌, ltb, length, get_or, inl, inr, ◌⊎◌, lt→ltb,
}
use linux_kernel.Prelude.Int.{pos}
use linux_kernel.Prelude.Errno.{eio}
use linux_kernel.Romfs.Format.{Dev, Read, bytes, fault, page_size}
use linux_kernel.Romfs.Page.{
  Page, File, encrypt, good_page, failed_page, maybe_encrypt, fill_size, fill_page, is_file_param,
  romfs_readpage,
}

-- The `n` bytes of a disk from `p` on.
abbrev pub window : (ℕ → ℕ) → ℕ → ℕ → List ℕ
window disk p zero = []
window disk p (suc n) = disk p ∷ window disk (p + 1) n

-- romfs_dev_read gives the bytes asked for wherever it does not fail.
abbrev pub ReadsDisk : Dev → (ℕ → ℕ) → Type 0
ReadsDisk dev disk = (p n : ℕ) (b : List ℕ) → dev.read p n ≡ bytes b → b ≡ window disk p n

-- The byte at `i` of page `index` of a file: the disk's byte, one more (mod 256) if the file is the
-- encrypted one, and 0 past the end of the file.
abbrev pub file_byte : (ℕ → ℕ) → Bool → File → ℕ → ℕ → ℕ
file_byte disk e f index i =
    let at = index * page_size + i in
    let b = disk (f.i_dataoffset + at) in
    if ltb at f.i_size then (if e then encrypt b else b) else 0

-- A page that was read: it is up to date and holds the file's bytes.
pub record IsFilled (disk : ℕ → ℕ) (e : Bool) (f : File) (index : ℕ) (p : Page) : Type 0 where
  pub ret : p.ret ≡ pos 0
  pub uptodate : p.uptodate ≡ true
  pub error : p.error ≡ false
  pub size : length p.contents ≡ page_size
  pub byte : (i : ℕ) → i < page_size → get_or p.contents i 0 ≡ file_byte disk e f index i

-- A page that could not be read: it has the error flag and is all zeros.
pub record IsFailed (p : Page) : Type 0 where
  pub ret : p.ret ≡ eio
  pub uptodate : p.uptodate ≡ false
  pub error : p.error ≡ true
  pub size : length p.contents ≡ page_size
  pub byte : (i : ℕ) → get_or p.contents i 0 ≡ 0

-- Without the parameter encrypted_file_name, or without a file, as for the target of a symbolic link, every
-- page that starts inside its file is a fault of the kernel: a NULL pointer is read.
pub romfs_readpage_no_param :
    (dev : Dev) (param : Option (List ℕ)) (f : File) (index : ℕ) (old : List ℕ)
    → (f.name ≡ none) ⊎ (param ≡ none)
    → index * page_size < f.i_size
    → romfs_readpage dev param f true index old ≡ none
unfolding romfs_readpage
romfs_readpage_no_param dev param f index old missing h =
    rw (lt→ltb (index * page_size) f.i_size h) (
      no_param (no_name missing)
        (dev.read (f.i_dataoffset + index * page_size) (fill_size f (index * page_size))))
  where
    by_name : (o : Option (List ℕ)) → is_file_param o none ≡ none
    by_name none = unfold is_file_param in refl
    by_name (some m) = unfold is_file_param in refl

    no_name : (f.name ≡ none) ⊎ (param ≡ none) → is_file_param f.name param ≡ none
    no_name (inl n) = unfold is_file_param in rw n refl
    no_name (inr n) = rw n (by_name f.name)

    no_param : is_file_param f.name param ≡ none → (r : Read) → fill_page param f r ≡ none
    no_param k (fault err) =
        unfold fill_page in ap (λ o. elim o [ none ↦ none | some e ↦ some failed_page ]) k
    no_param k (bytes b) =
        unfold fill_page in
        ap (λ o. elim o [ none ↦ none | some e ↦ some (good_page (maybe_encrypt e b)) ]) k
