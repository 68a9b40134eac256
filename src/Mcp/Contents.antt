-- ===== src/Mcp/Contents.antt =====
-- What the file at a path holds after a tool of the MCP server wrote it.
use context_os.Base.{
  Bool, true, false, Option, none, some, [], ◌≡◌, ◌≢◌, refl, ap, ◌∙◌, nat_eq, list_eq, option_eq,
  arith,
}
use context_os.Base.Text.{Str}
use context_os.Base.Utf8.{encode, decode, decode-encode}
use context_os.Paths.Normalize.{Host, path_normalize}
use context_os.Store.Commands.{Bytes, Git}
use context_os.Audit.{Result, ok, err, Disk, World, Call, then_on, on_disk}
use context_os.Mcp.{write_encoded, save_text, read_bytes, decoded, read_text_file}

-- A file system: two paths may lead to one place. A file that was written reads as it was
-- written, and all others as before; making a directory changes no file.
pub record IsDisk (D : Disk) : Type 0 where
  pub place : Str → Str
  pub read-write :
      (p q : Str) (content : Bytes) (d : D.State)
      → (D.write_bytes p content d).0 ≡ true
      → place p ≡ place q
      → D.read_bytes q (D.write_bytes p content d).1 ≡ some content
  pub read-write_other :
      (p q : Str) (content : Bytes) (d : D.State)
      → place p ≢ place q
      → D.read_bytes q (D.write_bytes p content d).1 ≡ D.read_bytes q d
  pub read-make_parent :
      (p q : Str) (d : D.State) → D.read_bytes q (D.make_parent p d).1 ≡ D.read_bytes q d

module _ {G : Git} (D : Disk) (law : IsDisk D) where
  on_disk-ok :
      (f : D.State → Bool × D.State) (w : World G D)
      → (on_disk {G = G} {D = D} f w).0 ≡ ok tt
      → (f w.disk).0 ≡ true
  unfolding on_disk
  on_disk-ok f w h = ground arith

  pub then_on-unit :
      (x : Result Unit × World G D) (f : Unit → Call G D Unit)
      → (then_on x f).0 ≡ ok tt
      → (x.0 ≡ ok tt) × ((f tt x.1).0 ≡ ok tt) × ((then_on x f).1 ≡ (f tt x.1).1)
  unfolding then_on
  then_on-unit (ok tt, w) f h = (refl, h, refl)
  then_on-unit (err e, w) f h = cc

  encoded-content :
      (path q : Str) (found : Option Bytes) (w : World G D)
      → (write_encoded path found w).0 ≡ ok tt
      → law.place path ≡ law.place q
      → (bs : Bytes) × (found ≡ some bs)
        × (D.read_bytes q (write_encoded path found w).1.disk ≡ some bs)
  unfolding write_encoded
  encoded-content path q none w h p = cc
  encoded-content path q (some bs) w h p = (
    bs,
    refl,
    unfold on_disk in law.read-write path q bs w.disk (on_disk-ok (D.write_bytes path bs) w h) p,
  )

  pub saved-content :
      (path q text : Str) (w : World G D)
      → (save_text path text w).0 ≡ ok tt
      → law.place path ≡ law.place q
      → (bs : Bytes) × (encode text ≡ some bs)
        × (D.read_bytes q (save_text path text w).1.disk ≡ some bs)
  unfolding save_text
  saved-content path q text w h p =
      let opened = on_disk (D.write_bytes path []) w in
      let (a, b, c) = then_on-unit opened (λ u. write_encoded path (encode text)) h in
      let (bs, e, r) = encoded-content path q (encode text) opened.1 b p in
      (bs, e, ap (λ v. D.read_bytes q v.disk) c ∙ r)

  module _ (host : Host) (replaced : Bytes → Str) where
    read_text-of :
        (path text : Str) (bs : Bytes) (w : World G D)
        → D.read_bytes (path_normalize host path) w.disk ≡ some bs
        → decode bs ≡ some text
        → (read_text_file host replaced path w).0 ≡ ok (text, false)
    unfolding read_text_file read_bytes then_on decoded
    read_text-of path text bs w h e = rw (read_bytes, h) (rw (decoded, e) refl)

    pub saved-read :
        (path text : Str) (w : World G D)
        → (save_text path text w).0 ≡ ok tt
        → law.place path ≡ law.place (path_normalize host path)
        → (read_text_file host replaced path (save_text path text w).1).0 ≡ ok (text, false)
    saved-read path text w h p =
        let (bs, e, r) = saved-content path (path_normalize host path) text w h p in
        read_text-of path text bs (save_text path text w).1 r (decode-encode text bs e)
