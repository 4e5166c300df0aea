-- ===== src/Commands.antt =====
-- cmd: the programs beside the proxy that speak its protocol. What the network delivers is the
-- results of the reads, one after the other; the end of the list is the end of the stream.
pub mod Mockup
pub mod Menvctl
pub mod Minienvoy
pub mod Started
pub mod Stream
pub mod Served
pub mod Flaky
pub mod Echo
use mini_envoy.Base.{ℕ, ◌-◌, List, [], ◌∷◌, ◌++◌, Option, none, some, length, take, drop, leb}
use mini_envoy.Base.{if◌then◌else◌}

-- The bytes of some reads.
abbrev pub joined : List (List ℕ) → List ℕ
joined [] = []
joined (x ∷ xs) = x ++ joined xs

-- The bytes of one read, and what the next ones bring.
unfoldable pub after : List ℕ → Option (List ℕ × List (List ℕ)) → Option (List ℕ × List (List ℕ))
after got none = none
after got (some (more, left)) = some (got ++ more, left)

-- `io.ReadFull`: so many bytes, and the reads that are left, or `none` where the stream ends first.
-- What a read has beyond the room that there is stays for the next one.
unfoldable pub read_full : ℕ → List (List ℕ) → Option (List ℕ × List (List ℕ))
unfolding after
read_full n [] = if leb n 0 then some ([], []) else none
read_full n (bytes ∷ reads) =
    let rest = read_full (n - length bytes) reads in
    if leb n (length bytes) then some (take n bytes, drop n bytes ∷ reads) else after bytes rest
