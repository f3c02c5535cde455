-- ===== src/Command/Channels.antt =====
-- internal/command/pubsub_command.go. The variables `subChan` and `subName` are shared by all
-- connections.
use valkeydb.Base.{none, some, [], ◌∷◌, codes, ◌>>=◌}
use valkeydb.Base.Int.{pos}
use valkeydb.Pubsub.{subscribe, unsubscribe, publish}
use valkeydb.Resp.{error_value, number, bulk, array_value, nil, cons, text_of}
use valkeydb.Command.{Handler, wrong_number}

unfoldable pub cmd_subscribe : Handler
cmd_subscribe (name ∷ []) db =
    let (ch, p) = subscribe (text_of name) db.pubsub in
    some (
      array_value (
          cons (bulk (codes "subscribe")) (cons (bulk (text_of name)) (cons (number (pos 1)) nil))),
      record db { pubsub = p; sub_chan = some ch; sub_name = text_of name },
    )
cmd_subscribe _ db = some (wrong_number (codes "subscribe"), db)

unfoldable pub cmd_unsubscribe : Handler
cmd_unsubscribe args db = elim db.sub_chan [
  | none ↦ some (error_value (codes "ERR not subscribed"), db)
  | some ch ↦ do
    p ← unsubscribe db.sub_name ch db.pubsub
    some (
      array_value
          (cons (bulk (codes "unsubscribe")) (cons (bulk db.sub_name) (cons (number (pos 0)) nil))),
      record db { pubsub = p; sub_chan = none; sub_name = [] },
    )
]

unfoldable pub cmd_publish : Handler
cmd_publish (channel ∷ message ∷ []) db = do
  sent ← publish (text_of channel) (text_of message) db.pubsub
  some (number (pos sent.0), record db { pubsub = sent.1 })
cmd_publish _ db = some (wrong_number (codes "publish"), db)
