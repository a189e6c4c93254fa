-- ===== src/Client/Send/Puts.antt =====
-- The steps of `sendDir` that send one message or one file, while no call on the socket fails.
use project.Prelude.{
  ℕ, ◌^◌, zero, suc, ◌-◌, ◌≤◌, ◌<◌, ◌≡◌, refl, true, some, List, [], ◌∷◌, ◌++◌, length, take, drop,
  replicate, length-take, length-drop, take-append, take-length, take-append-drop, lengths, Status,
  ok, arith,
}
use project.Socket.{Sock}
use project.Socket.Delivery.{IsLive, Sends, Sends-refl, Sends-trans, Sends-IsLive}
use project.Socket.Runs.{Sent}
use project.Wire.{box_size, file_tag, named_box}
use project.Wire.Layout.{length-encode_box, length-name_data}
use project.Wire.Format.{header, IsName}
use project.Client.Transfer.{send_all}
use project.Client.Transfer.Live.{send_all-Sent}
use project.Client.Files.{Info, base_name}
use project.Client.Send.{
  Host, Step, ◌>>◌, give, on_socket, my_min, chunk_buffer, send_message, send_chunks, send_file,
  ignore_err, send_header, send_plain,
}

-- A step that ended with 0, sent exactly `bytes`, and left `d` as the current directory.
pub record Put (bytes d : List ℕ) (h : Host) (r : Status × Host) : Type 0 where
  pub status : r.0 ≡ ok
  pub sends : Sends bytes h.sock r.1.sock
  pub cwd : r.1.cwd ≡ d

-- From the current directory `c`, on a connection on which no call fails.
pub record Puts (bytes c d : List ℕ) (m : Step) : Type 0 where
  pub run : (h : Host) → IsLive h.sock → h.cwd ≡ c → Put bytes d h (m h)

pub Puts-seq :
    {xs ys b c d : List ℕ} {m k : Step}
    → Puts xs b c m
    → Puts ys c d k
    → Puts (xs ++ ys) b d (m >> k)
unfolding ◌>>◌
Puts-seq {xs} {ys} {b} {c} {d} {m} {k} p q = record {
  run = λ h l e.
      let first = p.run h l e in
      let second = q.run (m h).1 (Sends-IsLive first.sends l) first.cwd in
      rw (first.status, ◌>>◌)
        (record {
          status = second.status;
          sends = Sends-trans first.sends second.sends;
          cwd = second.cwd;
        });
}

pub Puts-ok : (c : List ℕ) → Puts [] c c (give ok)
Puts-ok c = record { run = λ h l e. record { status = refl; sends = Sends-refl h.sock; cwd = e } }

pub Puts-socket :
    (bytes c : List ℕ) (f : Sock → Status × Sock)
    → ((s : Sock) → IsLive s → Sent bytes s (f s))
    → Puts bytes c c (on_socket f)
unfolding on_socket
Puts-socket bytes c f h = record {
  run = λ host l e.
      let sent = h host.sock l in record { status = sent.status; sends = sent.sends; cwd = e };
}

-- A chunk is never empty, and a counter holds what one message has.
module _ (room fuel : ℕ) (chunked : 0 < room) (counted : box_size room < 2 ^ 32)
    (enough : box_size room < fuel) where
  pub Puts-message :
      (n : ℕ) (msg c : List ℕ)
      → length msg ≡ n
      → n ≤ box_size room
      → Puts msg c c (send_message room fuel n msg)
  unfolding send_message
  Puts-message n msg c e h = Puts-socket msg c (send_all fuel n msg) λ s l.
      rw (take-length n msg (omega arith)) at
        (send_all-Sent fuel n msg s (omega arith) (omega arith) (omega arith) l)

  -- A chunk goes out whole, and without the zeros behind it.
  send_chunk-Sent :
      (chunk : List ℕ) (s : Sock)
      → length chunk ≤ room
      → IsLive s
      → Sent chunk s (send_all fuel (my_min (length chunk) room) (chunk_buffer room chunk) s)
  unfolding my_min
  send_chunk-Sent chunk s h l =
      let n : my_min (length chunk) room ≡ length chunk = ground arith in
      let held : length chunk ≤ length (chunk_buffer room chunk) = omega lengths in
      rw n (
        rw (take-append (length chunk) chunk (replicate (room - length chunk) 0) refl) at (
          send_all-Sent fuel (length chunk) (chunk_buffer room chunk) s (omega arith) held
            (omega arith) l))

  send_chunks-Sent :
      (n : ℕ) (content : List ℕ) (s : Sock)
      → length content < n
      → IsLive s
      → Sent content s (send_chunks room fuel n content s)
  unfolding send_chunks
  send_chunks-Sent zero content s h l = absurd (omega arith)
  send_chunks-Sent (suc n) [] s h l = record { status = refl; sends = Sends-refl s }
  send_chunks-Sent (suc n) (c ∷ cs) s h l =
      let chunk : List ℕ = take room (c ∷ cs) in
      let left : List ℕ = drop room (c ∷ cs) in
      let sent = send_chunk-Sent chunk s (omega (arith, length-take room (c ∷ cs))) l in
      let rest =
        send_chunks-Sent n left
          (send_all fuel (my_min (length chunk) room) (chunk_buffer room chunk) s).1
          (omega (arith, length-drop room (c ∷ cs))) (Sends-IsLive sent.sends l) in
      rw (sent.status, send_chunks)
        (record {
          status = rest.status;
          sends = rw (take-append-drop room (c ∷ cs)) at (Sends-trans sent.sends rest.sends);
        })

  pub Puts-ignore_err :
      {bytes c d : List ℕ} {m : Step} → Puts bytes c d m → Puts bytes c d (ignore_err room fuel m)
  unfolding ignore_err
  Puts-ignore_err {bytes} {c} {d} {m} p = record {
    run = λ h l e.
        let put = p.run h l e in
        rw (put.status, ignore_err) (record { status = refl; sends = put.sends; cwd = put.cwd });
  }

  pub Puts-header :
      (tag n : ℕ) (name path c : List ℕ)
      → IsName room name
      → base_name path ≡ some name
      → Puts (header room tag n name) c c (send_header room fuel tag n (base_name path))
  unfolding send_header
  Puts-header tag n name path c v e = rw e (
      Puts-message (box_size room) (header room tag n name) c
        (length-encode_box room (named_box room tag n name)
          (length-name_data room tag n name v.fits))
        (omega arith))

  pub Puts-plain :
      (path name content c : List ℕ) (info : Info)
      → IsName room name
      → base_name path ≡ some name
      → info.opens ≡ true
      → info.file_size ≡ some (length content)
      → info.content ≡ some content
      → Puts
          (header room file_tag (length content) name ++ content)
          c
          c
          (send_plain room fuel path info)
  unfolding send_plain send_file
  Puts-plain path name content c info v e opens sized read =
      let sent : (s : Sock) → IsLive s → Sent content s (send_file room fuel (some content) s) =
        λ s l. send_chunks-Sent (suc (length content)) content s (omega arith) l in
      let steps =
        Puts-seq (Puts-header file_tag (length content) name path c v e)
          (Puts-ignore_err (Puts-socket content c (send_file room fuel (some content)) sent)) in
      record { run = λ h l same. simp (opens, sized, read) (steps.run h l same) }
