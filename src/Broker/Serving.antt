-- ===== src/Broker/Serving.antt =====
-- What `__wrap_malloc`, `__wrap_calloc`, `__wrap_memalign` and `__wrap_aligned_alloc` give.
