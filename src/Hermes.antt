-- ===== src/Hermes.antt =====
-- The chat broker (hermes/core): its messages, the pull buffers and the routing.
pub mod Pull
pub mod Broker
use zakros.Base.{String}
use zakros.Base.Clock.{Time}

pub data MessageKind : Type 0 where
  status thinking code summary request_human_input : MessageKind

pub record Message : Type 0 where
  pub kind : MessageKind
  pub content : String
  pub language : String

pub record CreateThreadRequest : Type 0 where
  pub parent : String
  pub title : String
  pub opener : String

pub record InboundMessage : Type 0 where
  pub surface : String
  pub surface_user_id : String
  pub thread_ref : String
  pub content : String
  pub timestamp : Time
