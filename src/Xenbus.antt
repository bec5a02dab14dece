-- ===== src/Xenbus.antt =====
-- xenbus/xenbus.c: the messages to and from the store daemon of the control domain. `Ring` is the ring
-- of bytes that is shared with it, `Ids` the identifiers of the requests on their way, `Watch` the
-- watches with their queues of changed paths, `Reply` what callers make of the replies.
pub mod Ring
pub mod Ids
pub mod Watch
pub mod Reply
pub mod Receive
