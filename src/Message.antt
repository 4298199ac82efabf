-- ===== src/Message.antt =====
-- The message classes (`msg_class`) of the pipelines.
pub data MsgClass : Type 0 where
  state event bulk : MsgClass
