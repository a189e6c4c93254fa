-- ===== src/Tests/Pairs.antt =====
-- The theorems on the stand-alone client and the server at concrete inputs.
use project.Prelude.{◌≡◌, refl, [], ◌++◌, codes, arith, bytes_eq, replicate, fault, true}
use project.Socket.{Sock}
use project.Wire.{alone_size}
use project.Wire.Format.{success_message}
use project.Server.Files.{open_wb}
use project.Server.Receive.{write_dir}
use project.Server.Receive.Live.{at_sock}
use project.Alone.Misread.{alone_misread}
use project.Tests.{conn, conn-IsLive, peer, cwd}

-- A path that ends in a slash does not open.
abbrev host : project.Server.Receive.Host
host = record {
  sock = conn (success_message alone_size ++ replicate 16 0);
  disk = record { items = []; denied = λ p. bytes_eq p (codes "/srv/") };
}

alone_misread_example : (s : Sock) × (write_dir peer 9 true cwd host ≡ (fault, at_sock host s))
unfolding open_wb bytes_eq replicate
alone_misread_example =
    alone_misread peer 8 cwd host (replicate 16 0)
      (conn-IsLive (success_message alone_size ++ replicate 16 0)) refl (omega arith) refl
