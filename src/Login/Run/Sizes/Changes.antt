-- ===== src/Login/Run/Sizes/Changes.antt =====
-- Every change of a session reaches the database as it is meant.
use sneso_ip.Common.{◌≡◌, some, [], Bytes}
use sneso_ip.Login.{Act, sent, changed, answered}
use sneso_ip.Login.Run.Sizes.{Sizes}
use sneso_ip.Login.Mysql.{write, format, text, query_text}
use sneso_ip.Login.Mysql.Literals.{read, outside}
use sneso_ip.Login.Mysql.Meaning.{assignment, statement}

-- The query of a change is whole, and the database reads in it the statement that assigns the value of
-- the change to its column, for its user.
unfoldable pub IsMeantAct : (Bytes → Bytes) → Act → Type 0
IsMeantAct escape (sent text) = Unit
IsMeantAct escape (changed up) =
    (query_text escape (write up) ≡ text escape (format (write up)))
    × (read outside [] (query_text escape (write up)) ≡ some (statement (assignment up)))
IsMeantAct escape (answered user answer) = Unit
