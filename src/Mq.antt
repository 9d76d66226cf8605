-- ===== src/Mq.antt =====
-- server-go/internal/mq: the analysis task pipeline on Kafka.
pub mod Routing
pub mod Headers
pub mod Effects
pub mod Consumer
pub mod Settle
pub mod Handle
pub mod Runner
