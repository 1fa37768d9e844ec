-- ===== src/HostCx/Received.antt =====
-- What a call of `read` leaves in the read buffer: it first removes what was processed, or all.
use mathlib.Core.List.{append-nil}
use socle.Prelude.{
  ℕ, ◌%◌, ◌^◌, ◌≤◌, ◌<◌, ◌≡◌, refl, ap, ◌∙◌, true, false, Option, none, some, List, [], ◌∷◌, ◌++◌,
  arith, length, drop, drop_all, length-drop, length_zero,
}
use socle.HostCx.{HostCx, size}
use socle.HostCx.Io.{
  read, read_waiting_for_peercom, peer_full, finish, read_eagain, read_unlimited, max_bytes_left,
  grow_buffer, after_read, read_received,
}

-- A context that reads: it waits for no peer, its limit is not 0, and it finishes by itself.
pub record Reads (cx : HostCx) : Type 0 where
  pub running : cx.read_waiting_for_peercom_ ≡ false
  pub peer_open : peer_full cx ≡ false
  pub limit : read_eagain cx ≡ false
  pub auto : cx.auto_finish_ ≡ true

abbrev pub got_bytes : Option (List ℕ) → List ℕ
got_bytes none = []
got_bytes (some bs) = bs

pub not_waiting :
    (cx : HostCx) → cx.read_waiting_for_peercom_ ≡ false → read_waiting_for_peercom cx ≡ (false, cx)
unfolding read_waiting_for_peercom
not_waiting cx h = ground arith

module _ (room : ℕ → ℕ) (process_in : List ℕ → ℕ) where
  grow_buffer-bytes : (cx : HostCx) → (grow_buffer room cx).readbuf_.bytes ≡ cx.readbuf_.bytes
  unfolding grow_buffer
  grow_buffer-bytes cx = ground arith

  pub after_read-readbuf :
      (n now : ℕ) (cx : HostCx) → (after_read room process_in n now cx).readbuf_ ≡ cx.readbuf_
  unfolding after_read
  after_read-readbuf n now cx = ground arith

  received-bytes :
      (got : Option (List ℕ)) (now : ℕ) (cx : HostCx)
      → (read_received room process_in got now cx).1.readbuf_.bytes
        ≡ cx.readbuf_.bytes ++ got_bytes got
  unfolding read_received
  received-bytes none now cx = simp append-nil
  received-bytes (some []) now cx = simp append-nil
  received-bytes (some (x ∷ xs)) now cx =
      let b = cx.readbuf_ in
      let cx₁ = record cx { readbuf_ = record b { bytes = b.bytes ++ x ∷ xs } } in
      ground (
        arith,
        after_read-readbuf (length (x ∷ xs)) now cx₁,
        after_read-readbuf (length (x ∷ xs)) now (grow_buffer room cx₁),
        grow_buffer-bytes cx₁,
      )

  read-runs :
      (io_read : ℕ → Option (List ℕ)) (now : ℕ) (cx : HostCx)
      → Reads cx
      → let c = (finish cx).1 in
        read room process_in io_read now cx
        ≡ read_received room process_in (io_read (max_bytes_left c)) now c
  unfolding read
  read-runs io_read now cx r =
      rw (not_waiting cx r.running, r.peer_open, r.limit) (ground (arith, r.auto))

finish-processed :
    (cx : HostCx)
    → 0 < cx.processed_in_
    → cx.processed_in_ < 2 ^ 32
    → cx.processed_in_ ≤ size cx.readbuf_
    → (finish cx).1.readbuf_.bytes ≡ drop cx.processed_in_ cx.readbuf_.bytes
unfolding finish
finish-processed cx p small le =
    let e : cx.processed_in_ % 2 ^ 32 ≡ cx.processed_in_ = omega arith in ground (arith, e)

-- Without processed bytes, all are removed.
finish-nothing : (cx : HostCx) → cx.processed_in_ ≡ 0 → (finish cx).1.readbuf_.bytes ≡ []
unfolding finish
finish-nothing cx z = ground (
  arith,
  drop_all (size cx.readbuf_) cx.readbuf_.bytes (omega arith),
  length_zero cx.readbuf_.bytes,
)

module _ (room : ℕ → ℕ) (process_in : List ℕ → ℕ) where
  -- A context that reads (it waits for no peer, the peer has not too much to write, its limit is not
  -- 0, and it finishes by itself), where the last read processed at least one byte and fewer than
  -- 2^32, and the read buffer holds that many: a call of `read` drops exactly these bytes and puts
  -- what the Com returned behind the rest.
  pub read-received :
      (io_read : ℕ → Option (List ℕ)) (now : ℕ) (cx : HostCx)
      → Reads cx
      → 0 < cx.processed_in_
      → cx.processed_in_ < 2 ^ 32
      → cx.processed_in_ ≤ size cx.readbuf_
      → (got : Option (List ℕ)) × (got ≡ io_read (max_bytes_left (finish cx).1))
        × ((read room process_in io_read now cx).1.readbuf_.bytes
            ≡ drop cx.processed_in_ cx.readbuf_.bytes ++ got_bytes got)
  read-received io_read now cx r p small le =
      let c = (finish cx).1 in
      let got = io_read (max_bytes_left c) in
      (
        got,
        refl,
        ap (λ x. x.1.readbuf_.bytes) (read-runs room process_in io_read now cx r)
            ∙ received-bytes room process_in got now c
            ∙ ap (λ bs. bs ++ got_bytes got) (finish-processed cx p small le),
      )

  received-none :
      (now : ℕ) (cx : HostCx)
      → (read_received room process_in none now cx).1
        ≡ read_unlimited (record cx { processed_in_ = 0 })
  unfolding read_received
  received-none now cx = refl

  Reads-finish :
      (cx : HostCx) → Reads cx → Reads (read_unlimited (record (finish cx).1 { processed_in_ = 0 }))
  unfolding finish
  Reads-finish cx r = ground (arith, r.running, r.peer_open, r.limit, r.auto)

  -- A context that reads (it waits for no peer, the peer has not too much to write, its limit is not
  -- 0, and it finishes by itself), where the last read processed at least one byte and fewer than
  -- 2^32, and the read buffer holds more than these: if the Com has no byte for the next call of
  -- `read`, the bytes that were not processed stay in the buffer; and the call after that removes
  -- them, whatever it gets.
  pub read_again_loses :
      (io_read : ℕ → Option (List ℕ)) (now now' : ℕ) (cx : HostCx)
      → Reads cx
      → 0 < cx.processed_in_
      → cx.processed_in_ < 2 ^ 32
      → cx.processed_in_ < size cx.readbuf_
      → let cx₁ = (read room process_in (λ n. none) now cx).1 in
        let cx₂ = (read room process_in io_read now' cx₁).1 in
        (cx₁.readbuf_.bytes ≡ drop cx.processed_in_ cx.readbuf_.bytes)
        × (0 < size cx₁.readbuf_)
        × (cx₂.readbuf_.bytes ≡ got_bytes (io_read (max_bytes_left (finish cx₁).1)))
  read_again_loses io_read now now' cx r p small lt =
      let c = read_unlimited (record (finish cx).1 { processed_in_ = 0 }) in
      let e : (read room process_in (λ n. none) now cx).1 ≡ c =
        ap (λ x. x.1) (read-runs room process_in (λ n. none) now cx r)
        ∙ received-none now (finish cx).1 in
      let stays = finish-processed cx p small (omega arith) in
      rw e (
        stays,
        omega (arith, ap length stays, length-drop cx.processed_in_ cx.readbuf_.bytes),
        ap (λ x. x.1.readbuf_.bytes) (read-runs room process_in io_read now' c (Reads-finish cx r))
            ∙ received-bytes room process_in (io_read (max_bytes_left (finish c).1)) now'
                (finish c).1
            ∙ ap (λ bs. bs ++ got_bytes (io_read (max_bytes_left (finish c).1)))
                (finish-nothing c refl),
      )
