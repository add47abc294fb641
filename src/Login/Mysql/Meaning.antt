-- ===== src/Login/Mysql/Meaning.antt =====
-- What the changes of the database mean: one column of one user gets one value.
use sneso_ip.Common.{◌≡◌, refl, true, false, List, [], ◌∷◌, ◌++◌, Bytes, codes}
use sneso_ip.Login.{Update, set_online, set_ip, set_port, set_date}
use sneso_ip.Login.Mysql.{format, update_format, write, print_int}
use sneso_ip.Login.Mysql.Literals.{meant}

-- An expression of SQL, or a text.
pub data Value : Type 0 where
  expression quoted : Bytes → Value

pub record Assignment : Type 0 where
  pub column : Bytes
  pub value : Value
  pub user : Bytes

abbrev pub assignment : Update → Assignment
assignment (set_online u true) = record {
  column = codes "online";
  value = expression (codes "true");
  user = u;
}
assignment (set_online u false) = record {
  column = codes "online";
  value = expression (codes "false");
  user = u;
}
assignment (set_ip u ip) = record { column = codes "curr_ip"; value = quoted ip; user = u }
assignment (set_port u port) = record {
  column = codes "port";
  value = expression (print_int port);
  user = u;
}
assignment (set_date u) = record {
  column = codes "auth_time";
  value = expression (codes "NOW()");
  user = u;
}

-- The statement for an assignment, with one quote in place of each text in quotes, and these texts.
abbrev pub value_shape : Value → Bytes
value_shape (expression t) = t
value_shape (quoted t) = 39 ∷ []

abbrev pub value_texts : Value → List Bytes
value_texts (expression t) = []
value_texts (quoted t) = t ∷ []

abbrev pub statement : Assignment → Bytes × List Bytes
statement a = (
  codes "UPDATE snesoip.user SET "
      ++ (a.column
          ++ (codes " = " ++ (value_shape a.value ++ (codes " WHERE username = " ++ (39 ∷ []))))),
  value_texts a.value ++ (a.user ∷ []),
)

-- Each update is the statement of its assignment.
pub meant-statement : (up : Update) → meant (format (write up)) ≡ statement (assignment up)
unfolding meant format update_format
meant-statement (set_online u true) = refl
meant-statement (set_online u false) = refl
meant-statement (set_ip u ip) = refl
meant-statement (set_port u port) = refl
meant-statement (set_date u) = refl
