-- ===== src/Vsnesoip/Login/Agree.antt =====
-- The login against the login server: what the client sends, and what the server answers.
pub mod Rounds
pub mod Answers
mod Tests
use sneso_ip.Common.{ℕ, zero, suc, List, [], ◌∷◌, ◌++◌, Bytes}
use sneso_ip.Login.{Setting, Act, sent, changed, answered, World}
use sneso_ip.Login.Run.{round}
use sneso_ip.Vsnesoip.Login.{Account, Client, steps}

-- What the client receives of what a session does; each write arrives by itself.
abbrev pub texts : List Act → List Bytes
texts [] = []
texts (sent text ∷ acts) = text ∷ texts acts
texts (changed up ∷ acts) = texts acts
texts (answered u z ∷ acts) = texts acts

-- The server's round for a message, with what it does then.
abbrev pub serve : {Db : Type 0} → Setting Db → (ℕ → ℕ) → Bytes → World Db → World Db
serve env rand m w = round env (record { bytes = m; rand = rand }) (record w { acts = [] })

-- The messages of the client one after the other, each with its answers; at most `n`.
unfoldable pub talk :
    {Db : Type 0}
    → Setting Db
    → (ℕ → ℕ)
    → Account
    → ℕ
    → Client
    → World Db
    → List Bytes
    → Client × World Db
talk env rand a zero c w ms = (c, w)
talk env rand a (suc n) c w [] = (c, w)
talk env rand a (suc n) c w (m ∷ ms) =
    let w' = serve env rand m w in
    let (c', out) = steps env.printed env.keystream a c (texts w'.acts) in
    talk env rand a n c' w' (ms ++ out)
