-- ===== src/Core/Signals.antt =====
-- `SignalHandler` of src/core/signal_handler.cpp and the main loop of src/daemon/main.cpp.
pub mod Handler
pub mod Loop
