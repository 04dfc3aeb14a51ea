-- ===== src/Consensus/Network/Frames.antt =====
-- A message that is sent against what is received.
use routinechain.Base.{◌≡◌, some, ◌++◌, length}
use routinechain.External.{Bytes}
use routinechain.Consensus.Network.{ReadExact}

-- `read_exact` takes as many bytes as it is asked for, and leaves the others.
abbrev pub ReadsExactly : ReadExact → Type 0
ReadsExactly read_exact =
    (bytes rest : Bytes) → read_exact (length bytes) (bytes ++ rest) ≡ some (bytes, rest)
