-- ===== src/Broker.antt =====
-- The broker that keeps its queues in memory (mognet/broker/memory_broker.py).
pub mod Memory
pub mod Amqp
